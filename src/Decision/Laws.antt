-- ===== src/Decision/Laws.antt =====
-- What the projection of a Stop decision may print for the official hook.
use codex_hooks.Base.{
  subst, String, Bool, true, false, ◌≡◌, refl, Option, none, some, ok, ◌==◌, inl, inr, Bool-cases,
  arith, >>=-ok,
}
use codex_hooks.Protocol.Value.{Value, str, obj, end, field}
use codex_hooks.Decision.{
  PolicyDecision, project, project_stop_decision, normalize_policy_decision, has_reason,
  reason_text,
}

abbrev blocked : String → Value
blocked reason = obj (field "decision" (str "block") (field "reason" (str reason) end))

-- The two outputs that the official Stop hook knows.
pub data StopOutput : Value → Type 0 where
  nothing : StopOutput (obj end)
  block : (reason : String) → (reason == "") ≡ false → StopOutput (blocked reason)

has_reason-text : (o : Option String) → has_reason o ≡ true → (reason_text o == "") ≡ false
has_reason-text none e = cc
has_reason-text (some s) e = ground arith

project-StopOutput :
    (d : PolicyDecision) (wake : Bool) (out : Value) → project d wake ≡ ok out → StopOutput out
unfolding project
project-StopOutput d wake out e = elim (Bool-cases (d.action == "allow")) [
  | inl a ↦ let printed : ok (obj end) ≡ ok out = rw a at e in empty cc
  | inr a ↦ elim (Bool-cases (d.action == "block")) [
    | inl b ↦ elim (Bool-cases (has_reason d.reason)) [
      | inl r ↦
          let printed : ok (blocked (reason_text d.reason)) ≡ ok out = rw (a, b, r) at e in
          let same : blocked (reason_text d.reason) ≡ out = cc in
          subst StopOutput same (block (reason_text d.reason) (has_reason-text d.reason r))
      | inr r ↦ let clash = rw (a, b, r) at e in cc
    ]
    | inr b ↦ elim (Bool-cases wake) [
      | inl k ↦ let printed : ok (obj end) ≡ ok out = rw (a, b, k) at e in empty cc
      | inr k ↦ let clash = rw (a, b, k) at e in cc
    ]
  ]
]
  where
    empty : obj end ≡ out → StopOutput out
    empty same = subst StopOutput same nothing

project-inject :
    (d : PolicyDecision) (wake : Bool) (out : Value)
    → project d wake ≡ ok out
    → d.action ≡ "inject"
    → wake ≡ true
unfolding project
project-inject d true out e inject = refl
project-inject d false out e inject = let clash = rw inject at e in cc

-- Where a Stop decision is projected, the output is one of the two that the official hook knows,
-- a block with a reason that is not empty, and an injection was accepted as an external wake.
pub project_stop_decision-StopOutput :
    (v : Value) (wake : Bool) (out : Value)
    → project_stop_decision v wake ≡ ok out
    → (d : PolicyDecision) × (normalize_policy_decision v "stop" ≡ ok d)
      × StopOutput out
      × (d.action ≡ "inject" → wake ≡ true)
unfolding project_stop_decision
project_stop_decision-StopOutput v wake out e =
    let (d, printed, normal) = >>=-ok (normalize_policy_decision v "stop") out e in
    (d, normal, project-StopOutput d wake out printed, project-inject d wake out printed)
