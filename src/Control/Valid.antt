-- ===== src/Control/Valid.antt =====
-- What makes a stored schedule well formed, and that a new schedule is.
use codex_hooks.Base.{
  Gives-if, ℕ, ◌≤◌, String, Bool, true, ◌≡◌, refl, Option, some, none, arith, is_some, Gives,
  Gives-any, Gives-bind, Gives-ok, Gives-require,
}
use codex_hooks.Protocol.Value.{is_nullish, Value, get, is_true}
use codex_hooks.Protocol.Names.{
  BusyPolicy, busy_policies, busy_policy_name, SendMode, send_modes, send_mode_name, schedule_modes,
  schedule_actions, ScheduleAction, ScheduleMode, action_name, schedule_mode_name,
}
use codex_hooks.Protocol.Normalize.{
  Target, TargetScope, assert_non_empty, default_member, normalize_target, normalize_target_scope,
}
use codex_hooks.Timer.Schedule.{Schedule}
use codex_hooks.Timer.Requests.{target_value, scope_value}
use codex_hooks.Control.Upsert.{
  owner_of, ScheduleTexts, timed_schedule, require_interval, new_schedule,
  assert_schedule_action_options, assert_wait_once, checked_interval, positive_of,
  assert_concurrent, schedule_target, subagent_options, optional_source, optional_text,
}

abbrev pub IsPositive : Option ℕ → Type 0
IsPositive none = ⊥
IsPositive (some n) = 1 ≤ n

-- A schedule that waits has one occurrence.
abbrev pub IsWaitOnce : ScheduleAction → ScheduleMode → Type 0
IsWaitOnce ScheduleAction.wait ScheduleMode.interval = ⊥
IsWaitOnce action mode = Unit

-- A recurring schedule has a positive interval, and no other has one.
abbrev pub IsIntervalFor : ScheduleMode → Option ℕ → Type 0
IsIntervalFor ScheduleMode.once i = i ≡ none
IsIntervalFor ScheduleMode.interval i = IsPositive i

-- A recurring schedule of subagents allows that they run side by side.
abbrev pub IsAllowed : ScheduleAction → ScheduleMode → Option Bool → Type 0
IsAllowed ScheduleAction.subagent ScheduleMode.interval allow = allow ≡ some true
IsAllowed action mode allow = Unit

-- The target is the scope of a server, for a subagent, or a session.
abbrev pub IsAimed : ScheduleAction → Value → Type 0
IsAimed ScheduleAction.subagent target = (scope : TargetScope) × (target ≡ scope_value scope)
IsAimed action target = (own : Target) × (target ≡ target_value own)

pub record IsValidSchedule (parse_date : String → Option ℕ) (s : Schedule) : Type 0 where
  pub action : ScheduleAction
  pub mode : ScheduleMode
  pub has_action : s.action ≡ action_name action
  pub has_mode : s.mode ≡ schedule_mode_name mode
  pub has_time : is_some (parse_date s.at) ≡ true
  pub waits_once : IsWaitOnce action mode
  pub has_interval : IsIntervalFor mode s.interval_ms
  pub is_allowed : IsAllowed action mode s.allow_concurrent
  pub is_aimed : IsAimed action s.target

pub assert_wait_once-Gives :
    (action : ScheduleAction) (mode : ScheduleMode)
    → Gives (λ u. IsWaitOnce action mode) (assert_wait_once action mode)
unfolding assert_wait_once
assert_wait_once-Gives ScheduleAction.wait ScheduleMode.interval = record { holds = tt }
assert_wait_once-Gives ScheduleAction.wait ScheduleMode.once = record { holds = tt }
assert_wait_once-Gives ScheduleAction.notify mode = record { holds = tt }
assert_wait_once-Gives ScheduleAction.subagent mode = record { holds = tt }

positive_of-IsPositive : (v : Value) (n : ℕ) → positive_of v ≡ some n → 1 ≤ n
unfolding positive_of
positive_of-IsPositive (Value.num k) n e = ground arith
positive_of-IsPositive v n e = cc

-- The interval that is checked is the one in force, and it is positive.
abbrev pub IsChecked : ScheduleMode → Value → Option ℕ → Type 0
IsChecked ScheduleMode.once merged i = i ≡ none
IsChecked ScheduleMode.interval merged i = IsPositive i × (positive_of merged ≡ i)

require_interval-Gives :
    (merged : Value) (o : Option ℕ)
    → positive_of merged ≡ o
    → Gives (IsChecked ScheduleMode.interval merged) (require_interval o)
require_interval-Gives merged none e = record { holds = tt }
require_interval-Gives merged (some n) e = record { holds = (positive_of-IsPositive merged n e, e) }

pub checked_interval-Gives :
    (mode : ScheduleMode) (merged given : Value)
    → Gives (IsChecked mode merged) (checked_interval mode merged given)
unfolding checked_interval
checked_interval-Gives ScheduleMode.interval merged given =
    require_interval-Gives merged (positive_of merged) refl
checked_interval-Gives ScheduleMode.once merged given =
    Gives-if (is_nullish given) _ _ (Gives-ok refl) (record { holds = tt })

IsChecked-IsIntervalFor :
    (mode : ScheduleMode) (merged : Value) (i : Option ℕ)
    → IsChecked mode merged i
    → IsIntervalFor mode i
IsChecked-IsIntervalFor ScheduleMode.once merged i h = h
IsChecked-IsIntervalFor ScheduleMode.interval merged i (h, e) = h

-- What the check of `allow_concurrent` tells.
abbrev pub IsConcurrent : ScheduleAction → ScheduleMode → Bool → Type 0
IsConcurrent ScheduleAction.subagent ScheduleMode.interval allow = allow ≡ true
IsConcurrent action mode allow = Unit

pub assert_concurrent-Gives :
    (action : ScheduleAction) (mode : ScheduleMode) (allow : Bool)
    → Gives (λ u. IsConcurrent action mode allow) (assert_concurrent action mode allow)
unfolding assert_concurrent
assert_concurrent-Gives ScheduleAction.subagent ScheduleMode.interval allow = Gives-require allow _
assert_concurrent-Gives ScheduleAction.subagent ScheduleMode.once allow = record { holds = tt }
assert_concurrent-Gives ScheduleAction.notify mode allow = record { holds = tt }
assert_concurrent-Gives ScheduleAction.wait mode allow = record { holds = tt }

pub schedule_target-Gives :
    (action : ScheduleAction) (v : Value) → Gives (IsAimed action) (schedule_target action v)
unfolding schedule_target
schedule_target-Gives ScheduleAction.subagent v =
    Gives-any (normalize_target_scope v) (λ scope. Gives-ok (scope, refl))
schedule_target-Gives ScheduleAction.notify v =
    Gives-any (normalize_target v) (λ own. Gives-ok (own, refl))
schedule_target-Gives ScheduleAction.wait v =
    Gives-any (normalize_target v) (λ own. Gives-ok (own, refl))

-- The options of a subagent's schedule keep the permission that was checked.
subagent_options-Gives :
    (action : ScheduleAction) (mode : ScheduleMode) (v : Value)
    → IsConcurrent action mode (is_true (get v "allow_concurrent"))
    → Gives (λ o. IsAllowed action mode o.allow_concurrent) (subagent_options action v)
unfolding subagent_options
subagent_options-Gives ScheduleAction.subagent ScheduleMode.interval v allowed =
    Gives-any (optional_text (get v "cwd") "cwd") (λ cwd.
      Gives-any (optional_text (get v "model") "model") (λ model.
        Gives-any (optional_text (get v "effort") "effort") (λ effort. Gives-ok (rw allowed refl))))
subagent_options-Gives ScheduleAction.subagent ScheduleMode.once v allowed =
    Gives-any (optional_text (get v "cwd") "cwd") (λ cwd.
      Gives-any (optional_text (get v "model") "model")
        (λ model. Gives-any (optional_text (get v "effort") "effort") (λ effort. Gives-ok tt)))
subagent_options-Gives ScheduleAction.notify mode v allowed = Gives-ok tt
subagent_options-Gives ScheduleAction.wait mode v allowed = Gives-ok tt

timed_schedule-Gives :
    (parse_date : String → Option ℕ) (v : Value) (action : ScheduleAction) (mode : ScheduleMode)
    (texts : ScheduleTexts)
    → Gives (IsValidSchedule parse_date) (timed_schedule parse_date v action mode texts)
unfolding timed_schedule
timed_schedule-Gives parse_date v action mode texts =
    let given = get v "interval_ms" in
    let allow = is_true (get v "allow_concurrent") in
    Gives-bind _ (Gives-require (is_some (parse_date texts.at)) _) (λ u has_time.
      Gives-bind _ (assert_wait_once-Gives action mode) (λ u waits.
        Gives-bind _ (checked_interval-Gives mode given given) (λ interval checked.
          Gives-bind _ (assert_concurrent-Gives action mode allow) (λ u concurrent.
            Gives-bind _ (schedule_target-Gives action (get v "target")) (λ target aimed.
              Gives-any
                (optional_text (owner_of action (get v "owner_session_id") target)
                  "owner_session_id")
                (λ owner.
                  Gives-bind _ (subagent_options-Gives action mode v concurrent) (λ options allowed.
                    Gives-ok (record {
                      action = action;
                      mode = mode;
                      has_action = refl;
                      has_mode = refl;
                      has_time = has_time;
                      waits_once = waits;
                      has_interval = IsChecked-IsIntervalFor mode given interval checked;
                      is_allowed = allowed;
                      is_aimed = aimed;
                    }))))))))

pub new_schedule-Gives :
    (parse_date : String → Option ℕ) (v : Value)
    → Gives (IsValidSchedule parse_date) (new_schedule parse_date v)
unfolding new_schedule
new_schedule-Gives parse_date v = Gives-any (assert_non_empty (get v "id") "id") (λ id.
    Gives-any
      (default_member action_name schedule_actions "schedule action" ScheduleAction.notify
        (get v "action"))
      (λ action. Gives-any (assert_schedule_action_options action v) (λ u.
        Gives-any
          (default_member schedule_mode_name schedule_modes "schedule mode" ScheduleMode.once
            (get v "mode"))
          (λ mode. Gives-any (assert_non_empty (get v "at") "at") (λ at.
            Gives-any (assert_non_empty (get v "body") "body") (λ body.
              Gives-any
                (default_member send_mode_name send_modes "send mode" SendMode.idle_only
                  (get v "send_mode"))
                (λ send_mode.
                  Gives-any
                    (default_member busy_policy_name busy_policies "busy policy" BusyPolicy.defer
                      (get v "busy_policy"))
                    (λ busy_policy.
                      Gives-any (optional_source (get v "source"))
                        (λ source. timed_schedule-Gives parse_date v action mode _)))))))))
