-- ===== src/Decision.antt =====
-- src/decision.js: the policy decisions that a hook kind admits, and the projection of a Stop
-- decision to the output of the official hook.
pub mod Laws
mod Tests
use codex_hooks.Base.{
  String, Bool, false, not, Option, none, some, List, [], ◌∷◌, ◌==◌, ◌||◌, member, concat,
  if◌then◌else◌, Outcome, ok, throws, fault, ◌>>=◌, ◌>>◌, require,
}
use codex_hooks.Protocol.Value.{Value, str, obj, field, end, get, is_nullish, is_object, join_text}

abbrev pub stop_decisions : List String
stop_decisions = "allow" ∷ "block" ∷ "inject" ∷ []

abbrev pub tool_call_decisions : List String
tool_call_decisions =
    "observe" ∷ "allow" ∷ "deny" ∷ "delay" ∷ "retryable_failure" ∷ "terminal_failure" ∷ []

unfoldable pub actions_for : String → List String
actions_for kind =
    if kind == "stop"
    then stop_decisions
    else if kind == "tool-call" || kind == "update-goal"
    then tool_call_decisions
    else "observe" ∷ "inject" ∷ []

pub record PolicyDecision : Type 0 where
  pub action : String
  pub reason : Option String
  pub operator_id : Option String
  pub intent_id : Option String

-- `value == null ? null : String(value)`
abbrev pub optional_text : Value → Option String
optional_text v = if is_nullish v then none else some (join_text v)

-- `actions.includes(value.action)`, which yields the action
unfoldable pub allowed_action : List String → String → Value → Outcome String
allowed_action actions kind (str s) =
    if member s actions
    then ok s
    else throws (fault (concat ("unsupported " ∷ kind ∷ " decision: " ∷ s ∷ [])))
allowed_action actions kind v =
    throws (fault (concat ("unsupported " ∷ kind ∷ " decision: " ∷ join_text v ∷ [])))

unfoldable pub normalize_policy_decision : Value → String → Outcome PolicyDecision
normalize_policy_decision v kind = do
  require (is_object v) (fault "policy decision is required")
  action ← allowed_action (actions_for kind) kind (get v "action")
  ok (record {
    action = action;
    reason = optional_text (get v "reason");
    operator_id = optional_text (get v "operator_id");
    intent_id = optional_text (get v "intent_id");
  })

-- `!decision.reason`
abbrev pub has_reason : Option String → Bool
has_reason none = false
has_reason (some s) = not (s == "")

abbrev pub reason_text : Option String → String
reason_text none = ""
reason_text (some s) = s

unfoldable pub project : PolicyDecision → Bool → Outcome Value
project decision wake_accepted =
    if decision.action == "allow"
    then ok (obj end)
    else if decision.action == "block"
    then (if has_reason decision.reason
        then ok (
            obj (
              field "decision" (str "block")
                (field "reason" (str (reason_text decision.reason)) end)))
        else throws (fault "Stop block decision requires a reason"))
    else if wake_accepted
    then ok (obj end)
    else throws (fault "Stop inject decision requires an accepted external wake")

unfoldable pub project_stop_decision : Value → Bool → Outcome Value
project_stop_decision v wake_accepted = do
  decision ← normalize_policy_decision v "stop"
  project decision wake_accepted
