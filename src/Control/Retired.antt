-- ===== src/Control/Retired.antt =====
-- Schedules that are cancelled, stopped or of a missing session: only a new schedule under their id
-- takes their place.
use codex_hooks.Base.{
  ◌∙◌, ℕ, String, true, false, ◌≡◌, refl, Option, some, none, ◌==◌, List, [], ◌∷◌, Bool-cases, inl,
  inr, member, arith, is_blank, sym,
}
use codex_hooks.Base.Exec.{Exec, lift, ◌>>=◌}
use codex_hooks.Base.Exec.Moves.{Moves-if, Moves, Moves-bind, Moves-lift}
use codex_hooks.Base.Dict.{lookup}
use codex_hooks.Protocol.Value.{Value, get, str}
use codex_hooks.Timer.Schedule.{Schedule, is_timer_terminal_schedule}
use codex_hooks.Timer.Idle.{IsIdle}
use codex_hooks.Control.Store.{ControlState, Host}
use codex_hooks.Control.Schedules.{is_terminal, is_stoppable}
use codex_hooks.Control.Steps.{ScheduleStep}
use codex_hooks.Control.Refines.{
  unbind_session-Steps, bind_session-Steps, set_operator-Steps, Steps, Steps-IsPreorder,
}
use codex_hooks.Control.Mutated.{AllowsCalls, mutate_subagent-Steps, answer-Steps}
use codex_hooks.Control.Mutate.{answer, ControlResult, mutate_new, mutate_operation, mutate}
use codex_hooks.Protocol.Normalize.{assert_non_empty}
use codex_hooks.Control.Calls.{stored}

-- What holds of an entry, if there is one.
abbrev pub OnEntry : (Schedule → Type 0) → Option Schedule → Type 0
OnEntry P none = Unit
OnEntry P (some s) = P s

-- What holds of the schedule under an id, which is there.
abbrev pub IsEntry : (Schedule → Type 0) → Option Schedule → Type 0
IsEntry P none = ⊥
IsEntry P (some s) = P s

abbrev pub IsRetired : Schedule → Type 0
IsRetired s = is_terminal s ≡ true

abbrev pub Never : Schedule → Type 0
Never s = ⊥

step-IsRetired :
    {parse_date : String → Option ℕ} {a b : Option Schedule}
    → ScheduleStep parse_date Never a b
    → IsEntry IsRetired a
    → IsEntry IsRetired b
unfolding is_terminal is_stoppable
step-IsRetired (ScheduleStep.kept o) h = h
step-IsRetired (ScheduleStep.installed o s never) h = elim never [ ]
step-IsRetired (ScheduleStep.pauses s live) h = let clash : true ≡ false = sym h ∙ live in cc
step-IsRetired (ScheduleStep.resumes s live) h = let clash : true ≡ false = sym h ∙ live in cc
step-IsRetired (ScheduleStep.updates s action target request p live e) h =
    let clash : true ≡ false = sym h ∙ live in cc
step-IsRetired (ScheduleStep.stops s at stoppable) h = refl
step-IsRetired (ScheduleStep.cancels s at) h = refl
step-IsRetired (ScheduleStep.then_step a b c p q) h = step-IsRetired q (step-IsRetired p h)

-- The operations that store a new schedule.
abbrev pub installing_operations : List String
installing_operations =
    "schedule.add" ∷ "schedule.upsert" ∷ "wait.create" ∷ "wait.block" ∷ "longhorizon.register" ∷ []

module _ {D : Type 0} (host : Host D) where
  abbrev OldSteps : ControlState D → ControlState D → Type 0
  OldSteps = Steps host Never

  mutate_new-OldSteps :
      AllowsCalls OldSteps host
      → (operation : String) (request : Value) → member operation installing_operations ≡ false
      → Moves OldSteps (mutate_new host operation request)
  unfolding mutate_new
  mutate_new-OldSteps calls operation request other =
      let add : (operation == "schedule.add") ≡ false = ground arith in
      let upsert : (operation == "schedule.upsert") ≡ false = ground arith in
      let create : (operation == "wait.create") ≡ false = ground arith in
      let block : (operation == "wait.block") ≡ false = ground arith in
      let register : (operation == "longhorizon.register") ≡ false = ground arith in
      rw (add, upsert, create, block, register)
        (mutate_subagent-Steps host Never calls operation request)

  mutate_old-OldSteps :
      AllowsCalls OldSteps host
      → (operation : String) (request : Value) → member operation installing_operations ≡ false
      → Moves OldSteps (mutate_operation host operation request)
  unfolding mutate_operation
  mutate_old-OldSteps calls operation request other =
      Moves-if (operation == "operator.set_enabled") _ _
        (answered ControlResult.operator_set _ (set_operator-Steps host Never request))
        (Moves-if (operation == "session.bind") _ _
          (answered ControlResult.bound _ (bind_session-Steps host Never request))
          (Moves-if (operation == "session.unbind") _ _
            (answered ControlResult.unbound _ (unbind_session-Steps host Never request))
            (mutate_new-OldSteps calls operation request other)))
    where
      answered :
          {A : Type 0} (wrap : A → ControlResult) (m : Exec (ControlState D) A)
          → Moves OldSteps m
          → Moves OldSteps (answer wrap m)
      answered wrap m km = answer-Steps host Never calls wrap m km

  named-OldSteps :
      AllowsCalls OldSteps host
      → (operation : String) (request : Value) → member operation installing_operations ≡ false
      → Moves OldSteps (
          lift (assert_non_empty (str operation) "operation") >>= λ name.
          mutate_operation host name request)
  unfolding assert_non_empty ◌>>=◌
  named-OldSteps calls operation request other = elim (Bool-cases (is_blank operation)) [
    | inl e ↦ rw e (record { at = (Steps-IsPreorder host Never).reflexive })
    | inr e ↦ rw e (mutate_old-OldSteps calls operation request other)
  ]

  mutate-OldSteps :
      AllowsCalls OldSteps host
      → (operation : String) (request : Value) → get request "operation" ≡ str operation
      → member operation installing_operations ≡ false
      → Moves OldSteps (mutate host request)
  unfolding mutate assert_non_empty
  mutate-OldSteps calls operation request named other = rw named (
      Moves-bind (Steps-IsPreorder host Never) _ _ (Moves-lift (Steps-IsPreorder host Never) _)
        (λ u. named-OldSteps calls operation request other))

-- Terminal, and passed by in every tick of the timer.
abbrev pub IsOver : Schedule → Type 0
IsOver s = IsRetired s × IsIdle s

retired-IsOver : (o : Option Schedule) → IsEntry IsRetired o → IsEntry IsOver o
unfolding is_terminal is_timer_terminal_schedule
retired-IsOver none h = h
retired-IsOver (some s) h = (h, ground arith)

module _ {D : Type 0} (host : Host D) where
  -- A stored schedule that is cancelled, stopped or of a missing session is still there in such a
  -- state after any request to `mutate` whose operation does not store a new schedule, whether it
  -- returns or throws, and the timer passes it by. What others do while the App Server is awaited is
  -- supposed to keep such schedules likewise.
  pub mutate-KeepsRetired :
      (operation : String) (request : Value) (t : ControlState D) (id : String)
      → AllowsCalls (OldSteps host) host
      → get request "operation" ≡ str operation
      → member operation installing_operations ≡ false
      → IsEntry IsRetired (lookup id (stored t))
      → IsEntry IsOver (lookup id (stored (mutate host request t).1))
  mutate-KeepsRetired operation request t id calls named other retired = retired-IsOver _ (
      step-IsRetired (((mutate-OldSteps host calls operation request named other).at t).at id)
        retired)
