-- ===== src/Decision/Tests.antt =====
-- The projection of Stop decisions of src/decision.js on a concrete decision.
use codex_hooks.Base.{true, false, refl, ◌≡◌, ok}
use codex_hooks.Protocol.Value.{join_text, get, Value, str, obj, field, end}
use codex_hooks.Decision.{
  actions_for, allowed_action, PolicyDecision, project_stop_decision, normalize_policy_decision,
  project,
}
use codex_hooks.Decision.Laws.{StopOutput, project_stop_decision-StopOutput}

abbrev block_decision : Value
block_decision = obj (field "action" (str "block") (field "reason" (str "tests fail") end))

abbrev block_output : Value
block_output = obj (field "decision" (str "block") (field "reason" (str "tests fail") end))

project_stop_decision-StopOutput_example :
    (d : PolicyDecision) × (normalize_policy_decision block_decision "stop" ≡ ok d)
    × StopOutput block_output
    × (d.action ≡ "inject" → false ≡ true)
unfolding project_stop_decision normalize_policy_decision project allowed_action actions_for get
    join_text
project_stop_decision-StopOutput_example =
    project_stop_decision-StopOutput block_decision false block_output refl
