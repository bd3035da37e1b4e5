-- ===== src/Control/Untouched.antt =====
-- A refused operation on operators, bindings or schedules leaves the controls as they are.
use codex_hooks.Base.{
  String, Bool, true, false, ◌≡◌, refl, Option, ◌==◌, Bool-cases, inl, inr, List, [], ◌∷◌, Outcome,
  member, arith, is_blank,
}
use codex_hooks.Base.Exec.{Exec, lift, pure, ◌>>=◌}
use codex_hooks.Base.Exec.Moves.{Moves, Moves-lift, moves_rules}
use codex_hooks.Base.Dict.{put, Dict}
use codex_hooks.Protocol.Value.{Value, get, str}
use codex_hooks.Timer.Schedule.{Schedule}
use codex_hooks.Control.Store.{
  ControlState, Host, Binding, schedules_of, operators_of, bindings_of, put_schedules,
  put_operators, put_bindings, read_clock,
}
use codex_hooks.Control.Calls.{SameControls, SameControls-IsPreorder}
use codex_hooks.Control.Atomic.{
  Thrown, IsAtomic, IsTotal, IsTotal-pure, IsAtomic-if, IsAtomic-raise, IsAtomic-bind,
  IsAtomic-then, IsAtomic-option,
}
use codex_hooks.Control.Transitions.{aim_of-Same, read_clock-Same, bindings_of-Same}
use codex_hooks.Control.Schedules.{
  stop_schedule, require_schedule, remove_schedule, resume_schedule, require_live, replace_schedule,
  pause_schedule,
}
use codex_hooks.Control.Operators.{
  bind_to, unbind_session, bind_session, bound_target, set_operator,
}
use codex_hooks.Control.Add.{
  add_for, add_wait, store_schedule, upsert_schedule, add_schedule, add_with,
}
use codex_hooks.Control.Update.{update_schedule, aim_of}
use codex_hooks.Control.Mutate.{
  mutate_horizon, mutate_subagent, ControlResult, answer, mutate_operation, mutate_new,
  mutate_schedule, mutate,
}
use codex_hooks.Protocol.Normalize.{assert_non_empty}

module _ {D : Type 0} (host : Host D) where
  lift-Same : {A : Type 0} (r : Outcome A) → Moves SameControls (lift {S = ControlState D} r)
  lift-Same r = Moves-lift SameControls-IsPreorder r

  operators-Same : Moves SameControls (operators_of {D = D})
  unfolding operators_of
  operators-Same = record { at = λ t. refl }

  schedules-Same : Moves SameControls (schedules_of {D = D})
  unfolding schedules_of
  schedules-Same = record { at = λ t. refl }

  its-clock : (clock : D → String × D) → Moves SameControls (read_clock clock)
  its-clock = read_clock-Same

  its-bindings : Moves SameControls (bindings_of {D = D})
  its-bindings = bindings_of-Same

  its-aim : (request : Value) (s : Schedule) → Moves SameControls (aim_of host request s)
  its-aim = aim_of-Same host

  require_schedule-Same :
      (d : Dict Schedule) (id : String) → Moves SameControls (require_schedule {D = D} d id)
  unfolding require_schedule
  require_schedule-Same d id = search (moves_rules, SameControls-IsPreorder)

  require_live-Same : (id : String) (s : Schedule) → Moves SameControls (require_live {D = D} id s)
  unfolding require_live
  require_live-Same id s = lift-Same _

  bound_target-Same : (alias : String) → Moves SameControls (bound_target {D = D} alias)
  unfolding bound_target
  bound_target-Same alias = search (moves_rules, SameControls-IsPreorder, bindings_of-Same)

  replace-IsAtomic :
      (id : String) (s : Schedule) (d : Dict Schedule) → IsAtomic (replace_schedule {D = D} id s d)
  unfolding replace_schedule put_schedules ◌>>=◌
  replace-IsAtomic id s d = record { at = λ t. tt }

  store-IsAtomic : (s : Schedule) → IsAtomic (store_schedule host s)
  unfolding store_schedule schedules_of put_schedules ◌>>=◌
  store-IsAtomic s = record { at = λ t. tt }

  put_operators-IsAtomic :
      {A : Type 0} (d : Dict Bool) (a : A) → IsAtomic (put_operators {D = D} d >>= λ u. pure a)
  unfolding put_operators ◌>>=◌
  put_operators-IsAtomic d a = record { at = λ t. tt }

  put_bindings-IsAtomic :
      {A : Type 0} (d : Dict Binding) (a : A) → IsAtomic (put_bindings {D = D} d >>= λ u. pure a)
  unfolding put_bindings ◌>>=◌
  put_bindings-IsAtomic d a = record { at = λ t. tt }

  ruleset atomic_rules = (
    lift-Same, operators-Same, schedules-Same, its-clock, its-bindings, its-aim,
    require_schedule-Same, require_live-Same, bound_target-Same, replace-IsAtomic, store-IsAtomic,
    put_operators-IsAtomic, put_bindings-IsAtomic, IsAtomic-bind, IsAtomic-if, IsAtomic-raise,
    IsAtomic-option,
  )

  set_operator-IsAtomic : (request : Value) → IsAtomic (set_operator host request)
  unfolding set_operator
  set_operator-IsAtomic request = search atomic_rules depth 20

  bind_session-IsAtomic : (request : Value) → IsAtomic (bind_session host request)
  unfolding bind_session bind_to
  bind_session-IsAtomic request = search atomic_rules depth 20

  unbind_session-IsAtomic : (request : Value) → IsAtomic (unbind_session host request)
  unfolding unbind_session
  unbind_session-IsAtomic request = search atomic_rules depth 20

  pause_schedule-IsAtomic : (request : Value) → IsAtomic (pause_schedule {D = D} request)
  unfolding pause_schedule
  pause_schedule-IsAtomic request = search atomic_rules depth 20

  resume_schedule-IsAtomic : (request : Value) → IsAtomic (resume_schedule {D = D} request)
  unfolding resume_schedule
  resume_schedule-IsAtomic request = search atomic_rules depth 20

  remove_schedule-IsAtomic : (request : Value) → IsAtomic (remove_schedule host request)
  unfolding remove_schedule
  remove_schedule-IsAtomic request = search atomic_rules depth 20

  stop_schedule-IsAtomic : (request : Value) → IsAtomic (stop_schedule host request)
  unfolding stop_schedule
  stop_schedule-IsAtomic request = search atomic_rules depth 20

  update_schedule-IsAtomic : (request : Value) → IsAtomic (update_schedule host request)
  unfolding update_schedule
  update_schedule-IsAtomic request = search atomic_rules depth 20

  upsert_schedule-IsAtomic : (request : Value) → IsAtomic (upsert_schedule host request)
  unfolding upsert_schedule
  upsert_schedule-IsAtomic request = search atomic_rules depth 20

  add_end-IsTotal :
      {A : Type 0} (a : A)
      → IsTotal (operators_of >>= λ d. put_operators {D = D} (put "timer" true d) >>= λ u. pure a)
  unfolding operators_of put_operators ◌>>=◌
  add_end-IsTotal a = record { at = λ t. tt }

  add_with-IsAtomic :
      (request : Value) (alias : Option String) → IsAtomic (add_with host request alias)
  unfolding add_with
  add_with-IsAtomic request alias =
      IsAtomic-then _ _ (upsert_schedule-IsAtomic request) (λ s. add_end-IsTotal _)

  add_schedule-IsAtomic : (request : Value) → IsAtomic (add_schedule host request)
  unfolding add_schedule add_for
  add_schedule-IsAtomic request = search (atomic_rules, add_with-IsAtomic) depth 20

  add_wait-IsAtomic : (request : Value) → IsAtomic (add_wait host request)
  unfolding add_wait
  add_wait-IsAtomic request = search (atomic_rules, add_schedule-IsAtomic) depth 20

  answer-IsAtomic :
      {A : Type 0} (wrap : A → ControlResult) (m : Exec (ControlState D) A)
      → IsAtomic m
      → IsAtomic (answer wrap m)
  unfolding answer
  answer-IsAtomic wrap m km = IsAtomic-then m _ km (λ a. IsTotal-pure (wrap a))

  mutate_schedule-IsAtomic :
      (operation : String) (request : Value) → IsAtomic (mutate_schedule host operation request)
  unfolding mutate_schedule
  mutate_schedule-IsAtomic operation request =
      search
        (
          IsAtomic-if, IsAtomic-raise, answer-IsAtomic, pause_schedule-IsAtomic,
          resume_schedule-IsAtomic, update_schedule-IsAtomic, stop_schedule-IsAtomic,
          remove_schedule-IsAtomic,
        )
        depth 16

-- The operations of several writes, or of calls that are awaited.
abbrev pub composed_operations : List String
composed_operations =
    "longhorizon.register" ∷ "longhorizon.activate" ∷ "longhorizon.pause" ∷ "longhorizon.stop"
    ∷ "longhorizon.remove" ∷ "subagent.create" ∷ "subagent.stop" ∷ []

module _ {D : Type 0} (host : Host D) (operation : String)
    (simple : member operation composed_operations ≡ false) where
  mutate_new-IsAtomic : (request : Value) → IsAtomic (mutate_new host operation request)
  unfolding mutate_new mutate_subagent mutate_horizon
  mutate_new-IsAtomic request =
      let register : (operation == "longhorizon.register") ≡ false = ground arith in
      let activate : (operation == "longhorizon.activate") ≡ false = ground arith in
      let pause : (operation == "longhorizon.pause") ≡ false = ground arith in
      let stop : (operation == "longhorizon.stop") ≡ false = ground arith in
      let remove : (operation == "longhorizon.remove") ≡ false = ground arith in
      let create : (operation == "subagent.create") ≡ false = ground arith in
      let end : (operation == "subagent.stop") ≡ false = ground arith in
      rw (register, activate, pause, stop, remove, create, end)
        (search
          (
            IsAtomic-if, answer-IsAtomic, mutate_schedule-IsAtomic, add_schedule-IsAtomic,
            upsert_schedule-IsAtomic, add_wait-IsAtomic,
          )
          depth 16)

  mutate_operation-IsAtomic : (request : Value) → IsAtomic (mutate_operation host operation request)
  unfolding mutate_operation
  mutate_operation-IsAtomic request =
      search
        (
          IsAtomic-if, answer-IsAtomic, set_operator-IsAtomic, bind_session-IsAtomic,
          unbind_session-IsAtomic, mutate_new-IsAtomic,
        )
        depth 16

  named-IsAtomic :
      (request : Value)
      → IsAtomic (
          lift (assert_non_empty (str operation) "operation") >>= λ name.
          mutate_operation host name request)
  unfolding assert_non_empty ◌>>=◌
  named-IsAtomic request = elim (Bool-cases (is_blank operation)) [
    | inl e ↦ rw e (record { at = λ t. refl })
    | inr e ↦ rw e (mutate_operation-IsAtomic request)
  ]

  mutate-IsAtomic :
      (request : Value) → get request "operation" ≡ str operation → IsAtomic (mutate host request)
  unfolding mutate
  mutate-IsAtomic request named = rw named (
      IsAtomic-bind (lift _) _ (Moves-lift SameControls-IsPreorder _) (λ u. named-IsAtomic request))

module _ {D : Type 0} (host : Host D) where
  -- Where `mutate` throws on an operation on operators, bindings or schedules, or on one that it does
  -- not know, every control is what it was.
  pub mutate-Thrown :
      (operation : String) (request : Value) (t : ControlState D)
      → member operation composed_operations ≡ false
      → get request "operation" ≡ str operation
      → Thrown (SameControls t) (mutate host request t)
  mutate-Thrown operation request t simple named =
      (mutate-IsAtomic host operation simple request named).at t
