-- ===== src/Control/Operators.antt =====
-- src/control.js: `query`, the operators' switches and the session bindings.
use codex_hooks.Base.{
  ok, throws, Outcome, String, Bool, Option, some, none, List, [], ◌∷◌, ◌==◌, ◌&&◌, ◌||◌, not,
  member, concat, if◌then◌else◌, or_else, require, fault, false,
}
use codex_hooks.Base.Exec.{Exec, pure, raise, lift, on_option, ◌>>=◌, ◌>>◌}
use codex_hooks.Base.Dict.{Dict, lookup, put, remove}
use codex_hooks.Protocol.Value.{Value, get, is_true}
use codex_hooks.Protocol.Normalize.{Target, assert_non_empty, normalize_target}
use codex_hooks.Daemon.Identity.{same_target}
use codex_hooks.Timer.Schedule.{Schedule}
use codex_hooks.Control.Store.{
  Binding, LongHorizon, Controls, ControlState, Host, operators_of, bindings_of, schedules_of,
  put_operators, put_bindings, read_clock,
}

-- An entry of `OPERATOR_REGISTRY`: the fields that the operations read.
pub record OperatorEntry : Type 0 where
  pub name : String
  pub status : String

abbrev pub operator_registry : List OperatorEntry
operator_registry =
    record { name = "stopless"; status = "implemented" }
    ∷ record { name = "update-goal"; status = "contract-only" }
    ∷ record { name = "timer"; status = "implemented" }
    ∷ record { name = "longhorizon"; status = "implemented" }
    ∷ record { name = "memory"; status = "out-of-scope" }
    ∷ []

unfoldable pub find_operator : String → List OperatorEntry → Option OperatorEntry
find_operator name [] = none
find_operator name (entry ∷ more) =
    if entry.name == name then some entry else find_operator name more

-- `["skeleton", "implemented"].includes(definition.status)`
abbrev pub is_implemented : OperatorEntry → Bool
is_implemented entry = member entry.status ("skeleton" ∷ "implemented" ∷ [])

-- `OPERATORS.map((name) => [name, { enabled: false }])`
abbrev pub all_off : List OperatorEntry → Dict Bool
all_off [] = []
all_off (entry ∷ more) = (entry.name, false) ∷ all_off more

-- What `query` shows of the controls.
pub record View : Type 0 where
  pub operators : Dict Bool
  pub operator_registry : List OperatorEntry
  pub session_bindings : Dict Binding
  pub schedules : Dict Schedule
  pub subagents : Dict Value
  pub longhorizon : Dict LongHorizon

unfoldable pub query : Controls → View
query c = record {
  operators = or_else c.operators (all_off operator_registry);
  operator_registry = operator_registry;
  session_bindings = or_else c.session_bindings [];
  schedules = or_else c.schedules [];
  subagents = or_else c.subagents [];
  longhorizon = or_else c.longhorizon [];
}

-- `typeof value === "boolean"`
abbrev pub bool? : Value → Option Bool
bool? (Value.bool b) = some b
bool? _ = none

-- `Object.values(records).some(test)`
unfoldable pub any_of : {A : Type 0} → (A → Bool) → Dict A → Bool
any_of test [] = false
any_of test ((key, a) ∷ more) = test a || any_of test more

-- `schedule?.enabled === true`
abbrev pub is_on : Schedule → Bool
is_on s = or_else s.enabled false

abbrev pub is_active_in : String → LongHorizon → Bool
is_active_in mode r = r.enabled && r.mode == mode

-- The switches that the records and the schedules call for.
unfoldable pub synced : Dict LongHorizon → Dict Schedule → Dict Bool → Dict Bool
synced records schedules operators =
    put "timer" (any_of (is_active_in "periodic") records || any_of is_on schedules) (
      put "stopless" (any_of (is_active_in "goal") records)
        (put "longhorizon" (any_of (λ r. r.enabled) records) operators))

-- `existing && JSON.stringify(existing.target) !== JSON.stringify(target) && !replace`
unfoldable pub is_taken : Option Binding → Target → Bool → Bool
is_taken none target replace = false
is_taken (some existing) target replace = not (same_target existing.target target) && not replace

-- The error of an alias that stands for another session.
unfoldable pub require_free : String → Target → Bool → Dict Binding → Outcome (Unit {0})
require_free alias target replace bindings =
    require (not (is_taken (lookup alias bindings) target replace)) (
      fault
        (concat ("session alias is already bound: " ∷ alias ∷ "; use replace to rebind it" ∷ [])))

module _ {D : Type 0} (host : Host D) where
  unfoldable pub set_operator : Value → Exec (ControlState D) (String × Bool)
  set_operator request = do
    name ← lift (assert_non_empty (get request "name") "name")
    on_option (find_operator name operator_registry)
        (raise (fault (concat ("unsupported operator: " ∷ name ∷ []))))
        (λ definition.
          on_option (bool? (get request "enabled")) (raise (fault "enabled must be boolean"))
            (λ enabled. do
              lift (
                  require (not (enabled && not (is_implemented definition)))
                    (fault (concat ("operator is not implemented: " ∷ name ∷ []))))
              operators ← operators_of
              put_operators (put name enabled operators)
              pure (name, enabled)))

  -- The binding is stored, and returned.
  unfoldable pub bind_to : String → Target → Dict Binding → Exec (ControlState D) Binding
  bind_to alias target bindings = do
    at ← read_clock host.date_now
    put_bindings (put alias (record { alias = alias; target = target; bound_at = at }) bindings)
    pure (record { alias = alias; target = target; bound_at = at })

  unfoldable pub bind_session : Value → Exec (ControlState D) Binding
  bind_session request = do
    alias ← lift (assert_non_empty (get request "alias") "alias")
    target ← lift (normalize_target (get request "target"))
    bindings ← bindings_of
    lift (require_free alias target (is_true (get request "replace")) bindings)
    bind_to alias target bindings

  unfoldable pub unbind_session : Value → Exec (ControlState D) (String × Option Binding)
  unbind_session request = do
    alias ← lift (assert_non_empty (get request "alias") "alias")
    bindings ← bindings_of
    put_bindings (remove alias bindings)
    pure (alias, lookup alias bindings)

-- `bindings[alias].target`, or the error that no session has the alias
abbrev pub target_of : String → Option Binding → Outcome Target
target_of alias none = throws (fault (concat ("session alias is not bound: " ∷ alias ∷ [])))
target_of alias (some binding) = ok binding.target

module _ {D : Type 0} where
  unfoldable pub bound_target : String → Exec (ControlState D) Target
  bound_target alias = do bindings ← bindings_of; lift (target_of alias (lookup alias bindings))

  unfoldable pub resolve_session_target : Value → Exec (ControlState D) Target
  resolve_session_target alias = do
    name ← lift (assert_non_empty alias "session")
    bound_target name

  unfoldable pub sync_operator_state : Dict LongHorizon → Exec (ControlState D) Unit
  sync_operator_state records = do
    schedules ← schedules_of
    operators ← operators_of
    put_operators (synced records schedules operators)
