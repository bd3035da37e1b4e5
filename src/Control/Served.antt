-- ===== src/Control/Served.antt =====
-- What a reconciliation leaves: a live schedule for every active goal.
use codex_hooks.Base.{
  Outcome-cases, is_some, require, Gives-if, ℕ, String, true, ◌≡◌, refl, sym, ◌∙◌, ap, subst,
  Option, ◌==◌, Bool-cases, inl, inr, or_else, [], Gives, Gives-any, Gives-bind, Gives-ok, Gives-eq,
  Outcome, is_blank,
}
use codex_hooks.Base.Exec.{Exec, pure, ◌>>=◌}
use codex_hooks.Base.Exec.Moves.{Moves, moves_rules}
use codex_hooks.Base.Exec.Ends.{Returned, Returned-same}
use codex_hooks.Base.Dict.{Dict, lookup, put, lookup-put, lookup-put_self}
use codex_hooks.Protocol.Value.{get_field, Value, get, str}
use codex_hooks.Protocol.Normalize.{member_of, default_member, Target, assert_non_empty}
use codex_hooks.Timer.Schedule.{or_text, Schedule, is_timer_terminal_schedule}
use codex_hooks.Control.Store.{
  iso_of, put_schedules, schedules_of, ControlState, Host, LongHorizon, read_clock,
}
use codex_hooks.Control.Upsert.{
  optional_text, subagent_options, optional_source, owner_of, schedule_target, assert_concurrent,
  checked_interval, require_none, assert_wait_once, given_fields, assert_schedule_action_options,
  ScheduleTexts, new_schedule, timed_schedule,
}
use codex_hooks.Control.LongHorizon.{liveness_body, liveness_delay_ms, delayed, horizon_request}
use codex_hooks.Control.Liveness.{renew, served_by, is_live, Kept}
use codex_hooks.Control.Calls.{stored, SameControls, SameControls-IsPreorder}
use codex_hooks.Control.Retired.{IsEntry}
use codex_hooks.Protocol.Names.{
  busy_policy_name, send_mode_name, BusyPolicy, SendMode, source_name, action_name, find_named,
  ScheduleMode, ScheduleAction, schedule_mode_name,
}
use codex_hooks.Control.Add.{upsert_schedule, store_schedule}
use codex_hooks.Control.Operators.{resolve_session_target}
use codex_hooks.Control.Transitions.{read_clock-Same, resolve_session_target-Same}

abbrev pub IsLive : Schedule → Type 0
IsLive s = is_live s ≡ true

-- Live schedules stay live.
abbrev pub StaysLive : Dict Schedule → Dict Schedule → Type 0
StaysLive d d' = (id : String) → IsEntry IsLive (lookup id d) → IsEntry IsLive (lookup id d')

put-StaysLive :
    (id : String) (s : Schedule) (d : Dict Schedule) → IsLive s → StaysLive d (put id s d)
put-StaysLive id s d live j h = elim (Bool-cases (id == j)) [
  | inl e ↦ rw (lookup-put id j s d, e) live
  | inr e ↦ rw (lookup-put id j s d, e) h
]

-- The schedule that the request of a record makes: it is live, and under the id of the request.
record IsServing (id : String) (s : Schedule) : Type 0 where
  live : is_live s ≡ true
  own_id : s.id ≡ id

assert_non_empty-same :
    (text label : String) → Gives (λ s. s ≡ text) (assert_non_empty (str text) label)
unfolding assert_non_empty
assert_non_empty-same text label =
    Gives-if (is_blank text) _ _ (record { holds = tt }) (Gives-ok refl)

timed_schedule-IsServing :
    (parse_date : String → Option ℕ) (v : Value) (texts : ScheduleTexts)
    → texts.source ≡ str "longhorizon"
    → Gives
        (IsServing texts.id)
        (timed_schedule parse_date v ScheduleAction.notify ScheduleMode.interval texts)
unfolding timed_schedule is_live is_timer_terminal_schedule schedule_mode_name
timed_schedule-IsServing parse_date v texts source =
    let given = get v "interval_ms" in
    let action = ScheduleAction.notify in
    let mode = ScheduleMode.interval in
    Gives-any (require (is_some (parse_date texts.at)) _) (λ u.
      Gives-any (assert_wait_once action mode) (λ u.
        Gives-any (checked_interval mode given given) (λ interval.
          Gives-any (assert_concurrent action mode _) (λ u.
            Gives-any (schedule_target action (get v "target")) (λ target.
              Gives-any (optional_text (owner_of action (get v "owner_session_id") target) _)
                (λ owner.
                  Gives-any (subagent_options action v)
                    (λ options. Gives-ok (record { live = rw source refl; own_id = refl }))))))))

renamed :
    {name id : String} {m : Outcome Schedule}
    → name ≡ id
    → Gives (IsServing name) m
    → Gives (IsServing id) m
renamed {m = m} same g = subst (λ n. Gives (IsServing n) m) same g

optional_source-Gives : Gives (λ v. v ≡ str "longhorizon") (optional_source (str "longhorizon"))
unfolding optional_source assert_non_empty member_of find_named source_name
optional_source-Gives = Gives-ok refl

new_schedule-IsServing :
    (parse_date : String → Option ℕ) (id : String) (at : Value) (interval_ms : ℕ) (body : String)
    (target : Target) (owner : String)
    → Gives
        (IsServing id)
        (new_schedule parse_date (horizon_request id at interval_ms body target owner))
unfolding new_schedule assert_schedule_action_options given_fields require_none default_member
    member_of find_named action_name schedule_mode_name send_mode_name busy_policy_name get
    get_field
new_schedule-IsServing parse_date id at interval_ms body target owner =
    let v = horizon_request id at interval_ms body target owner in
    Gives-bind _ (assert_non_empty-same id "id") (λ name own.
      Gives-any (assert_non_empty at "at") (λ time.
        Gives-any (assert_non_empty (str body) "body") (λ text.
          Gives-bind _ optional_source-Gives (λ source named. renamed own (
            timed_schedule-IsServing parse_date v
              (record {
                id = name;
                at = time;
                body = text;
                send_mode = SendMode.idle_only;
                busy_policy = BusyPolicy.skip;
                source = source;
              })
              named)))))

module _ {D : Type 0} (host : Host D) where
  -- The record that is kept has a live schedule, and the live schedules of `d` are still live.
  pub record IsRenewed (d : Dict Schedule) (k : Kept) (t : ControlState D) : Type 0 where
    pub grows : StaysLive d (stored t)
    pub served : IsEntry IsLive (lookup k.horizon.liveness_schedule_id (stored t))
    pub reports : is_some k.report ≡ true

  store_schedule-IsRenewed :
      (id name : String) (r : LongHorizon) (s : Schedule) (t : ControlState D)
      → IsServing id s
      → Returned
          (IsRenewed (stored t))
          ((store_schedule host s >>= λ x. pure (served_by name x.id x.at r)) t)
  unfolding store_schedule schedules_of put_schedules served_by ◌>>=◌
  store_schedule-IsRenewed id name r s t serving = record {
    grows = put-StaysLive s.id s (stored t) serving.live;
    served = rw (lookup-put_self s.id s (stored t)) serving.live;
    reports = refl;
  }

  pub same_stored :
      {A : Type 0} {m : Exec (ControlState D) A}
      → Moves SameControls m
      → (t : ControlState D) → stored (m t).1 ≡ stored t
  same_stored keeps t = sym (ap (λ c. or_else c.schedules []) (keeps.at t))

  upsert-IsRenewed :
      (id name : String) (request : Value) (r : LongHorizon) (d : Dict Schedule)
      (t : ControlState D)
      → Gives (IsServing id) (new_schedule host.parse_date request)
      → stored t ≡ d
      → Returned
          (IsRenewed d)
          ((upsert_schedule host request >>= λ s. pure (served_by name s.id s.at r)) t)
  unfolding upsert_schedule ◌>>=◌
  upsert-IsRenewed id name request r d t serves same =
      elim (Outcome-cases (new_schedule host.parse_date request)) [
        | inl (s, e) ↦ rw e (
            subst
              (λ x.
                Returned (IsRenewed x)
                  ((store_schedule host s >>= λ y. pure (served_by name y.id y.at r)) t))
              same (store_schedule-IsRenewed id name r s t (Gives-eq _ serves e)))
        | inr (x, e) ↦ rw e tt
      ]

  delayed-Same : (text : String) → Moves SameControls (delayed host text)
  unfolding delayed iso_of
  delayed-Same text = search (moves_rules, SameControls-IsPreorder) depth 16

  pub renew-IsRenewed :
      (id schedule_id : String) (r : LongHorizon) (d : Dict Schedule) (t : ControlState D)
      → stored t ≡ d
      → Returned (IsRenewed d) (renew host id schedule_id r t)
  unfolding renew
  renew-IsRenewed id schedule_id r d t same =
      Returned-same (IsRenewed d) stored (resolve_session_target (str r.session)) _ t
        (same_stored (resolve_session_target-Same (str r.session)) t)
        (λ target t₁ e₁.
          Returned-same (IsRenewed d) stored (read_clock host.now) _ t₁
            (same_stored (read_clock-Same host.now) t₁)
            (λ now t₂ e₂.
              Returned-same (IsRenewed d) stored (delayed host now) _ t₂
                (same_stored (delayed-Same now) t₂)
                (λ at t₃ e₃.
                  upsert-IsRenewed schedule_id id _ _ d t₃
                    (new_schedule-IsServing host.parse_date schedule_id (str at) liveness_delay_ms
                      (liveness_body r.goal_file) target
                      (or_text r.owner_session_id target.thread_id))
                    (e₃ ∙ e₂ ∙ e₁ ∙ same))))
