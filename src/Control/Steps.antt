-- ===== src/Control/Steps.antt =====
-- What one operation may do to a stored schedule, as a step relation.
use codex_hooks.Base.{
  ℕ, String, true, false, ◌≡◌, Option, some, ◌==◌, ok, Bool-cases, inl, inr, eq_iff, subst,
}
use codex_hooks.Base.Exec.Moves.{IsPreorder}
use codex_hooks.Base.Dict.{Dict, lookup, put, lookup-put}
use codex_hooks.Protocol.Value.{Value}
use codex_hooks.Timer.Schedule.{Schedule}
use codex_hooks.Control.Schedules.{is_terminal, is_stoppable, paused, resumed, cancelled, halted}
use codex_hooks.Control.Patch.{SchedulePatch, normalize_schedule_patch}
use codex_hooks.Control.Apply.{updated_schedule}

-- The entry of an id, before and after: `Fresh` are the schedules that may be stored anew.
pub data ScheduleStep (parse_date : String → Option ℕ) (Fresh : Schedule → Type 0)
    : Option Schedule → Option Schedule → Type 0 where
  kept : (o : Option Schedule) → ScheduleStep parse_date Fresh o o
  installed :
      (o : Option Schedule) (s : Schedule) → Fresh s → ScheduleStep parse_date Fresh o (some s)
  pauses :
      (s : Schedule)
      → is_terminal s ≡ false
      → ScheduleStep parse_date Fresh (some s) (some (paused s))
  resumes :
      (s : Schedule)
      → is_terminal s ≡ false
      → ScheduleStep parse_date Fresh (some s) (some (resumed s))
  updates :
      (s : Schedule) (action target request : Value) (p : SchedulePatch)
      → is_terminal s ≡ false
      → normalize_schedule_patch parse_date action target request s ≡ ok p
      → ScheduleStep parse_date Fresh (some s) (some (updated_schedule p s))
  stops :
      (s : Schedule) (at : String)
      → is_stoppable s ≡ true
      → ScheduleStep parse_date Fresh (some s) (some (halted at s))
  cancels :
      (s : Schedule) (at : String) → ScheduleStep parse_date Fresh (some s) (some (cancelled at s))
  then_step :
      (a b c : Option Schedule)
      → ScheduleStep parse_date Fresh a b
      → ScheduleStep parse_date Fresh b c
      → ScheduleStep parse_date Fresh a c

module _ (parse_date : String → Option ℕ) (Fresh : Schedule → Type 0) where
  -- Every entry goes by steps.
  pub record Changes (d d' : Dict Schedule) : Type 0 where
    pub at : (id : String) → ScheduleStep parse_date Fresh (lookup id d) (lookup id d')

module _ {parse_date : String → Option ℕ} {Fresh : Schedule → Type 0} where
  pub Changes-IsPreorder : IsPreorder (Changes parse_date Fresh)
  Changes-IsPreorder = record {
    reflexive = λ d. record { at = λ id. ScheduleStep.kept (lookup id d) };
    transitive = λ a b c p q. record {
      at = λ id.
          ScheduleStep.then_step (lookup id a) (lookup id b) (lookup id c) (p.at id) (q.at id);
    };
  }

  pub put-Changes :
      (d : Dict Schedule) (key : String) (s : Schedule)
      → ScheduleStep parse_date Fresh (lookup key d) (some s)
      → Changes parse_date Fresh d (put key s d)
  put-Changes d key s step = record {
    at = λ id. elim (Bool-cases (key == id)) [
      | inl e ↦
          rw (lookup-put key id s d, e)
            (subst (λ k. ScheduleStep parse_date Fresh (lookup k d) (some s)) ((eq_iff key id).0 e)
              step)
      | inr e ↦ rw (lookup-put key id s d, e) (ScheduleStep.kept (lookup id d))
    ];
  }
