-- ===== src/Control/Patched.antt =====
-- `updateSchedule` keeps a schedule well formed.
use codex_hooks.Base.{
  if-cases, ℕ, String, Bool, true, false, ◌≡◌, refl, sym, ◌∙◌, ap, subst, Option, none, ◌==◌,
  Bool-cases, inl, inr, is_some, eq_iff, Gives, Gives-any, Gives-bind, Gives-ok,
}
use codex_hooks.Protocol.Value.{Value, get, str, is_nullish, or_given}
use codex_hooks.Protocol.Names.{
  schedule_modes, schedule_actions, ScheduleAction, ScheduleMode, action_name, schedule_mode_name,
}
use codex_hooks.Timer.Schedule.{Schedule}
use codex_hooks.Control.Upsert.{assert_schedule_action_options}
use codex_hooks.Control.Patch.{
  patch_options, patch_texts, SchedulePatch, text_value, number_value, normalize_schedule_patch,
}
use codex_hooks.Control.Apply.{
  patch_over, drop_subagent_options, configure_again, drop_interval, updated_schedule,
  changes_schedule,
}
use codex_hooks.Control.Valid.{
  assert_concurrent-Gives, checked_interval-Gives, assert_wait_once-Gives, schedule_target-Gives,
  IsValidSchedule, IsWaitOnce, IsIntervalFor, IsAllowed, IsAimed,
}
use codex_hooks.Control.PatchFields.{
  IsNamed, named-Gives, kept_name, action_filled, mode_filled, if_given-Gives, checked_at-Gives,
  flag-Gives, permission_after, IsRecurring, interval_after, action_name-injective,
}

-- A well-formed schedule, but for an interval that one of a single occurrence may still have.
record IsShaped (parse_date : String → Option ℕ) (action : ScheduleAction) (mode : ScheduleMode)
    (s : Schedule) : Type 0 where
  has_action : s.action ≡ action_name action
  has_mode : s.mode ≡ schedule_mode_name mode
  has_time : is_some (parse_date s.at) ≡ true
  waits_once : IsWaitOnce action mode
  recurs : IsRecurring mode s.interval_ms
  is_allowed : IsAllowed action mode s.allow_concurrent
  is_aimed : IsAimed action s.target

notify-IsAllowed :
    (action : ScheduleAction) (mode : ScheduleMode)
    → action_name action ≡ "notify"
    → IsAllowed action mode none
unfolding action_name
notify-IsAllowed ScheduleAction.subagent mode e = cc
notify-IsAllowed ScheduleAction.notify mode e = tt
notify-IsAllowed ScheduleAction.wait mode e = tt

module _ {parse_date : String → Option ℕ} where
  drop_options-IsShaped :
      (action : ScheduleAction) (mode : ScheduleMode) (s : Schedule)
      → IsShaped parse_date action mode s
      → IsShaped parse_date action mode (drop_subagent_options s)
  unfolding drop_subagent_options
  drop_options-IsShaped action mode s shaped =
      if-cases (IsShaped parse_date action mode) (s.action == "notify") _ s
        (λ e. record {
          has_action = shaped.has_action;
          has_mode = shaped.has_mode;
          has_time = shaped.has_time;
          waits_once = shaped.waits_once;
          recurs = shaped.recurs;
          is_allowed =
              notify-IsAllowed action mode (sym shaped.has_action ∙ (eq_iff s.action "notify").0 e);
          is_aimed = shaped.is_aimed;
        })
        (λ e. shaped)

  configure_again-IsShaped :
      (action : ScheduleAction) (mode : ScheduleMode) (changed : Bool) (s : Schedule)
      → IsShaped parse_date action mode s
      → IsShaped parse_date action mode (configure_again changed s)
  unfolding configure_again
  configure_again-IsShaped action mode true s shaped = record {
    has_action = shaped.has_action;
    has_mode = shaped.has_mode;
    has_time = shaped.has_time;
    waits_once = shaped.waits_once;
    recurs = shaped.recurs;
    is_allowed = shaped.is_allowed;
    is_aimed = shaped.is_aimed;
  }
  configure_again-IsShaped action mode false s shaped = shaped

  -- An interval that fits the mode makes it well formed.
  fits-IsValid :
      (action : ScheduleAction) (mode : ScheduleMode) (s : Schedule) (i : Option ℕ)
      → IsShaped parse_date action mode s
      → IsIntervalFor mode i
      → IsValidSchedule parse_date (record s { interval_ms = i })
  fits-IsValid action mode s i shaped fits = record {
    action = action;
    mode = mode;
    has_action = shaped.has_action;
    has_mode = shaped.has_mode;
    has_time = shaped.has_time;
    waits_once = shaped.waits_once;
    has_interval = fits;
    is_allowed = shaped.is_allowed;
    is_aimed = shaped.is_aimed;
  }

  drop_interval-IsValid :
      (action : ScheduleAction) (mode : ScheduleMode) (s : Schedule)
      → IsShaped parse_date action mode s
      → IsValidSchedule parse_date (drop_interval s)
  unfolding drop_interval schedule_mode_name
  drop_interval-IsValid action ScheduleMode.once s shaped =
      if-cases (IsValidSchedule parse_date) (s.mode == "once") _ s
        (λ e. fits-IsValid action ScheduleMode.once s none shaped refl)
        (λ e. let clash : true ≡ false = sym ((eq_iff s.mode "once").1 shaped.has_mode) ∙ e in cc)
  drop_interval-IsValid action ScheduleMode.interval s shaped =
      if-cases (IsValidSchedule parse_date) (s.mode == "once") _ s
        (λ e.
          let clash : "once" ≡ "interval" = sym ((eq_iff s.mode "once").0 e) ∙ shaped.has_mode in
          cc)
        (λ e. fits-IsValid action ScheduleMode.interval s s.interval_ms shaped shaped.recurs)

  updated_schedule-IsValid :
      (action : ScheduleAction) (mode : ScheduleMode) (p : SchedulePatch) (s : Schedule)
      → IsShaped parse_date action mode (patch_over p s)
      → IsValidSchedule parse_date (updated_schedule p s)
  unfolding updated_schedule
  updated_schedule-IsValid action mode p s shaped = drop_interval-IsValid action mode _ (
      configure_again-IsShaped action mode (changes_schedule p) _
        (drop_options-IsShaped action mode _ shaped))

  has_action-filled : (s : Schedule) → IsValidSchedule parse_date s → (s.action == "") ≡ false
  has_action-filled s valid = ap (λ x. x == "") valid.has_action ∙ action_filled valid.action

  has_mode-filled : (s : Schedule) → IsValidSchedule parse_date s → (s.mode == "") ≡ false
  has_mode-filled s valid = ap (λ x. x == "") valid.has_mode ∙ mode_filled valid.mode

  -- The target of a schedule whose patch gives neither a target nor an action.
  kept-IsAimed :
      (action : ScheduleAction) (given_action given_target : Value) (s : Schedule)
      → IsValidSchedule parse_date s
      → IsNamed action_name
          (or_given given_action (or_given (text_value s.action) (str "notify")))
          action
      → is_nullish (or_given given_target given_action) ≡ true
      → IsAimed action s.target
  kept-IsAimed action ga gt s valid is_named nothing =
      let none_given : is_nullish ga ≡ true = elim (Bool-cases (is_nullish gt)) [
        | inl e ↦ rw e at nothing
        | inr e ↦
            let clash : is_nullish gt ≡ true = rw e at nothing in
            let never : true ≡ false = sym clash ∙ e in cc
      ] in
      let same =
        kept_name action_name ga action s.action "notify" (has_action-filled s valid) is_named in
      let own : s.action ≡ action_name action = rw none_given at same in
      subst (λ a. IsAimed a s.target)
        (action_name-injective valid.action action (sym valid.has_action ∙ own)) valid.is_aimed

  pub normalize_schedule_patch-Gives :
      (given_action given_target request : Value) (s : Schedule)
      → IsValidSchedule parse_date s
      → Gives
          (λ p. IsValidSchedule parse_date (updated_schedule p s))
          (normalize_schedule_patch parse_date given_action given_target request s)
  unfolding normalize_schedule_patch patch_over
  normalize_schedule_patch-Gives ga gt v s valid =
      let allow = get v "allow_concurrent" in
      let given = get v "interval_ms" in
      let in_force = or_given given (number_value s.interval_ms) in
      let kept_at = if_given-Gives (get v "at") _ s.at (checked_at-Gives parse_date (get v "at")) in
      Gives-bind _ (named-Gives action_name schedule_actions "schedule action" _)
        (λ action is_action. Gives-any (assert_schedule_action_options action v) (λ u.
          Gives-bind _ (named-Gives schedule_mode_name schedule_modes "schedule mode" _)
            (λ mode is_mode. Gives-bind _ (assert_wait_once-Gives action mode) (λ u waits.
              Gives-bind _ (kept_at (λ e. valid.has_time)) (λ at has_time.
                Gives-any (patch_texts v) (λ texts.
                  Gives-bind _
                    (if_given-Gives (or_given gt ga) _ s.target
                      (schedule_target-Gives action (or_given gt s.target))
                      (kept-IsAimed action ga gt s valid is_action))
                    (λ target aimed. Gives-any (patch_options v) (λ options.
                      Gives-bind _ (flag-Gives allow s.allow_concurrent) (λ flag keeps.
                        Gives-bind _ (checked_interval-Gives mode in_force given)
                          (λ interval checked.
                            Gives-bind _ (assert_concurrent-Gives action mode _) (λ u concurrent.
                              Gives-ok (
                                updated_schedule-IsValid action mode _ s (record {
                                  has_action =
                                      kept_name action_name ga action s.action "notify"
                                        (has_action-filled s valid) is_action;
                                  has_mode =
                                      kept_name schedule_mode_name (get v "mode") mode s.mode "once"
                                        (has_mode-filled s valid) is_mode;
                                  has_time = has_time;
                                  waits_once = waits;
                                  recurs = interval_after mode given interval s.interval_ms checked;
                                  is_allowed =
                                      permission_after action mode allow flag s.allow_concurrent
                                        keeps concurrent;
                                  is_aimed = aimed;
                                })))))))))))))
