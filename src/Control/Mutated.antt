-- ===== src/Control/Mutated.antt =====
-- `mutate` as a whole goes by the steps, and so do its operations on what is there already.
use codex_hooks.Base.{String, Option, some, none}
use codex_hooks.Base.Exec.{Exec, on_option}
use codex_hooks.Base.Exec.Moves.{Moves, Moves-bind, Moves-pure, Moves-raise}
use codex_hooks.Base.Dict.{Dict}
use codex_hooks.Protocol.Value.{Value}
use codex_hooks.Timer.Schedule.{Schedule}
use codex_hooks.Control.Store.{ControlState, Host}
use codex_hooks.Control.Refines.{
  its-remove, its-stop, remove_long_horizon-Steps, its-update, its-resume, stop_long_horizon-Steps,
  its-pause, set_long_horizon_enabled-Steps, steps_rules, Steps, Steps-IsPreorder,
}
use codex_hooks.Control.Subagents.{
  stop_with, stop_subagent, stop_by_status, end_subagent, register_subagent, replace_subagent,
  register_new_subagent, create_with, attempt_id_of, create_subagent, stop_active, created_of,
}
use codex_hooks.Control.Mutate.{
  ControlResult, mutate_horizon, mutate_subagent, answer, mutate_schedule,
}
use codex_hooks.Protocol.Normalize.{TargetScope}

module _ {D : Type 0} (R : ControlState D → ControlState D → Type 0) where
  -- A call of the App Server, if there is one, leads only where `R` allows.
  abbrev pub Allows : Option (Value → Exec (ControlState D) Value) → Type 0
  Allows none = Unit
  Allows (some f) = (v : Value) → Moves R (f v)

  -- What others do to the controls while a call of the App Server is awaited.
  pub record AllowsCalls (host : Host D) : Type 0 where
    pub create : Allows host.create_subagent
    pub status : Allows host.session_status
    pub interrupt : Allows host.interrupt_subagent

module _ {D : Type 0} (host : Host D) (Fresh : Schedule → Type 0)
    (calls : AllowsCalls (Steps host Fresh) host) where
  -- A function that may be there.
  with_call :
      {A : Type 0} (o : Option (Value → Exec (ControlState D) Value)) (m : Exec (ControlState D) A)
      (k : (Value → Exec (ControlState D) Value) → Exec (ControlState D) A)
      → Allows (Steps host Fresh) o
      → Moves (Steps host Fresh) m
      → ((f : Value → Exec (ControlState D) Value)
          → ((v : Value) → Moves (Steps host Fresh) (f v))
          → Moves (Steps host Fresh) (k f))
      → Moves (Steps host Fresh) (on_option o m k)
  unfolding on_option
  with_call none m k allowed km kf = km
  with_call (some f) m k allowed km kf = kf f allowed

  created_of-Steps : (request : Value) → Moves (Steps host Fresh) (created_of host request)
  unfolding created_of
  created_of-Steps request = search (steps_rules) depth 16

  replace_subagent-Steps :
      (id : String) (changed : Value) (subagents : Dict Value)
      → Moves (Steps host Fresh) (replace_subagent host id changed subagents)
  unfolding replace_subagent
  replace_subagent-Steps id changed subagents = search steps_rules depth 16

  register_new_subagent-Steps :
      (thread_id turn_id : String) (target : TargetScope) (request : Value) (subagents : Dict Value)
      → Moves
          (Steps host Fresh)
          (register_new_subagent host thread_id turn_id target request subagents)
  unfolding register_new_subagent
  register_new_subagent-Steps thread_id turn_id target request subagents =
      search (steps_rules, created_of-Steps, replace_subagent-Steps) depth 18

  register_subagent-Steps :
      (request : Value) → Moves (Steps host Fresh) (register_subagent host request)
  unfolding register_subagent
  register_subagent-Steps request = search (steps_rules, register_new_subagent-Steps) depth 18

  attempt_id_of-Steps : (request : Value) → Moves (Steps host Fresh) (attempt_id_of host request)
  unfolding attempt_id_of
  attempt_id_of-Steps request = search steps_rules depth 16

  create_with-Steps :
      (create : Value → Exec (ControlState D) Value) (request : Value)
      → ((v : Value) → Moves (Steps host Fresh) (create v))
      → Moves (Steps host Fresh) (create_with host create request)
  unfolding create_with
  create_with-Steps create request allowed =
      search (steps_rules, attempt_id_of-Steps, register_subagent-Steps, allowed) depth 20

  create_subagent-Steps :
      (request : Value) → Moves (Steps host Fresh) (create_subagent host request)
  unfolding create_subagent
  create_subagent-Steps request =
      with_call host.create_subagent _ _ calls.create (Moves-raise (Steps-IsPreorder host Fresh) _)
        (λ create allowed. create_with-Steps create request allowed)

  end_subagent-Steps :
      (thread_id : String) (subagent evidence : Value) (subagents : Dict Value)
      → Moves (Steps host Fresh) (end_subagent host thread_id subagent evidence subagents)
  unfolding end_subagent
  end_subagent-Steps thread_id subagent evidence subagents =
      search (steps_rules, replace_subagent-Steps) depth 16

  stop_by_status-Steps :
      (interrupt : Value → Exec (ControlState D) Value) (status : Value) (thread_id : String)
      (subagent : Value) (subagents : Dict Value)
      → ((v : Value) → Moves (Steps host Fresh) (interrupt v))
      → Moves (Steps host Fresh) (stop_by_status host interrupt status thread_id subagent subagents)
  unfolding stop_by_status
  stop_by_status-Steps interrupt status thread_id subagent subagents allowed =
      search (steps_rules, end_subagent-Steps, allowed) depth 16

  stop_active-Steps :
      (thread_id : String) (subagent : Value) (subagents : Dict Value)
      → Moves (Steps host Fresh) (stop_active host thread_id subagent subagents)
  unfolding stop_active stop_with
  stop_active-Steps thread_id subagent subagents =
      with_call host.session_status _ _ calls.status (Moves-raise (Steps-IsPreorder host Fresh) _)
        (λ status asks.
          with_call host.interrupt_subagent _ _ calls.interrupt
            (Moves-raise (Steps-IsPreorder host Fresh) _)
            (λ interrupt allowed.
              Moves-bind (Steps-IsPreorder host Fresh) _ _ (asks _) (λ found.
                stop_by_status-Steps interrupt found thread_id subagent subagents allowed)))

  stop_subagent-Steps : (request : Value) → Moves (Steps host Fresh) (stop_subagent host request)
  unfolding stop_subagent
  stop_subagent-Steps request = search (steps_rules, stop_active-Steps) depth 16

  pub answer-Steps :
      {A : Type 0} (wrap : A → ControlResult) (m : Exec (ControlState D) A)
      → Moves (Steps host Fresh) m
      → Moves (Steps host Fresh) (answer wrap m)
  unfolding answer
  answer-Steps wrap m km =
      Moves-bind (Steps-IsPreorder host Fresh) m _ km
        (λ a. Moves-pure (Steps-IsPreorder host Fresh) (wrap a))

  mutate_schedule-Steps :
      (operation : String) (request : Value)
      → Moves (Steps host Fresh) (mutate_schedule host operation request)
  unfolding mutate_schedule
  mutate_schedule-Steps operation request =
      search (steps_rules, answer-Steps, its-pause, its-resume, its-update, its-stop, its-remove)
        depth 16

  mutate_horizon-Steps :
      (operation : String) (request : Value)
      → Moves (Steps host Fresh) (mutate_horizon host operation request)
  unfolding mutate_horizon
  mutate_horizon-Steps operation request =
      search
        (
          steps_rules, answer-Steps, set_long_horizon_enabled-Steps, stop_long_horizon-Steps,
          remove_long_horizon-Steps, mutate_schedule-Steps,
        )
        depth 16

  pub mutate_subagent-Steps :
      (operation : String) (request : Value)
      → Moves (Steps host Fresh) (mutate_subagent host operation request)
  unfolding mutate_subagent
  mutate_subagent-Steps operation request =
      search
        (
          steps_rules, answer-Steps, create_subagent-Steps, stop_subagent-Steps,
          mutate_horizon-Steps,
        )
        depth 16
