-- ===== src/Timer/Tests.antt =====
-- The timer on concrete inputs: a schedule every 20 ms from 0, served at 50, in a calendar that
-- knows a few times.
use codex_hooks.Base.{
  ◌<◌, ℕ, String, true, false, ◌≡◌, refl, Option, none, some, [], ◌∷◌, ok, ◌==◌, if◌then◌else◌, eqb,
  inl, inr, Bool-cases, arith,
}
use codex_hooks.Base.Dict.{put, lookup}
use codex_hooks.Protocol.Value.{str, undefined}
use codex_hooks.Daemon.Record.{object}
use codex_hooks.Timer.Schedule.{Schedule, Occurrence, patch_to}
use codex_hooks.Timer.World.{Operator, TimerState, timer_primitives}
use codex_hooks.Timer.Finish.{
  finish_once-never_claimed, finish_occurrence-KeepsTurn, KeepsTurn, stored, IsCurrent,
}
use codex_hooks.Timer.Repeat.{finish_occurrence-Waits, Waits, IsCalendar}
use codex_hooks.Timer.Occurrence.{
  iso_of, finish_interval, finish_current, finish_latest, missed, claim_occurrence, next_time,
  finish_occurrence,
}
use codex_hooks.Timer.Tick.{
  conclude_fire, conclude_pending, send_pending, act_on_occurrence, fire, tick,
}
use codex_hooks.Timer.Idle.{tick-idle}
use codex_hooks.Timer.Advance.{next_time-IsNext, IsNext}
use codex_hooks.Timer.Actions.{dispatch_notify, act}
use codex_hooks.Timer.Requests.{state_after}
use codex_hooks.Protocol.Normalize.{normalize_target}
use codex_hooks.Timer.InFlight.{fire-IsFinished, IsFinished}

abbrev parse : String → Option ℕ
parse text =
    if text == "60"
    then some 60
    else if text == "50"
    then some 50
    else if text == "0"
    then some 0
    else none

abbrev sixty : ℕ → Option String
sixty n = if eqb n 60 then some "60" else none

abbrev sender : Operator Unit
sender = record {
  dispatch = λ intent s. (ok (object (("decision", str "sent") ∷ [])), s);
  resume = none;
  create_subagent = none;
  register_subagent = none;
  session_status = none;
  intent_of = none;
  clock = λ d. ("50", d);
  parse_date = parse;
  iso = sixty;
  text_le = λ a b. true;
}

abbrev plan : String → Schedule
plan mode = record {
  id = "plan";
  at = "0";
  enabled = some true;
  state = "enabled";
  mode = mode;
  next_at = "";
  interval_ms = some 20;
  action = "";
  busy_policy = "";
  current_occurrence = "";
  last_occurrence = "";
  last_decision = undefined;
  last_delivery = undefined;
  failure = undefined;
  stamps = [];
  target = object (
      ("namespace", str "ns")
      ∷ ("appserver_id", str "app")
      ∷ ("session_id", str "session")
      ∷ ("thread_id", str "thread")
      ∷ []);
  source = undefined;
  body = str "hello";
  send_mode = undefined;
  expires_at = undefined;
  cwd = undefined;
  model = undefined;
  effort = undefined;
  owner_session_id = undefined;
  ephemeral = false;
  allow_concurrent = none;
}

abbrev cancelled_plan : Schedule
cancelled_plan = record (plan "interval") { state = "cancelled"; enabled = some false }

abbrev with_plan : Schedule → TimerState Unit
with_plan s = record {
  shared = record { timer_enabled = true; schedules = some (("plan", s) ∷ []); rest = tt };
  copy = ("plan", s) ∷ [];
}

abbrev occurrence : Occurrence
occurrence = record { at = "0"; occurrence_id = "timer:plan:0" }

sender-IsCalendar : IsCalendar sender
sender-IsCalendar = record {
  parses = λ n text e. elim (Bool-cases (eqb n 60)) [
    | inl c ↦
        let same : some "60" ≡ some text = rw c at e in
        let named : "60" ≡ text = cc in
        let sixty_is : n ≡ 60 = ground arith in rw (← named, sixty_is) refl
    | inr c ↦ let clash = rw c at e in cc
  ];
  rejects = refl;
}

current :
    (mode : String)
    → IsCurrent sender (plan mode) occurrence (patch_to "sent") (("plan", plan mode) ∷ [])
unfolding lookup
current mode latest found =
    let same : some (plan mode) ≡ some latest = found in
    let own : plan mode ≡ latest = cc in rw (← own) refl

finish_occurrence-Waits_example :
    (kept : Schedule) × (stored "plan"
        (finish_occurrence sender
          (plan "interval")
          occurrence
          (patch_to "sent")
          (with_plan (plan "interval"))).1
      ≡ some kept)
    × Waits sender 0 50 kept
unfolding finish_occurrence finish_latest finish_current finish_interval next_time missed iso_of
    timer_primitives lookup
finish_occurrence-Waits_example =
    finish_occurrence-Waits sender (plan "interval") occurrence (patch_to "sent")
      (with_plan (plan "interval")) 0 50 sender-IsCalendar (current "interval") refl refl refl refl
      refl refl

finish_once-never_claimed_example :
    (kept : Schedule) × (stored "plan"
        (finish_occurrence sender
          (plan "once")
          occurrence
          (patch_to "sent")
          (with_plan (plan "once"))).1
      ≡ some kept)
    × ((later : TimerState Unit) → claim_occurrence sender kept later ≡ (ok none, later))
finish_once-never_claimed_example =
    finish_once-never_claimed sender (plan "once") occurrence (patch_to "sent")
      (with_plan (plan "once")) (current "once") refl refl

finish_occurrence-KeepsTurn_example :
    (kept : Schedule) × (stored "plan"
        (finish_occurrence sender
          (plan "interval")
          occurrence
          (patch_to "sent")
          (with_plan cancelled_plan)).1
      ≡ some kept)
    × KeepsTurn cancelled_plan kept
unfolding lookup
finish_occurrence-KeepsTurn_example =
    finish_occurrence-KeepsTurn sender (plan "interval") occurrence (patch_to "sent")
      (with_plan cancelled_plan) cancelled_plan
      (record {
        all = ("plan", cancelled_plan) ∷ [];
        are_stored = refl;
        found = refl;
        withdrawn = refl;
        own_id = refl;
      })

next_time-IsNext_example : (0 < 20) × IsNext 0 50 20 60
unfolding next_time missed
next_time-IsNext_example = next_time-IsNext 0 50 20 60 refl

tick-idle_example :
    ((tick sender (with_plan cancelled_plan)).0 ≡ ok [])
    × ((tick sender (with_plan cancelled_plan)).1.shared ≡ (with_plan cancelled_plan).shared)
tick-idle_example = tick-idle sender (with_plan cancelled_plan) (inr (refl, tt))

fire-IsFinished_example :
    IsFinished "plan"
      (fire sender (plan "interval") "notify" occurrence (with_plan (plan "interval"))).1
unfolding fire act_on_occurrence send_pending act dispatch_notify conclude_pending conclude_fire
    finish_occurrence finish_latest finish_current finish_interval next_time missed iso_of
    state_after timer_primitives lookup put normalize_target
fire-IsFinished_example =
    fire-IsFinished sender (plan "interval") "notify" occurrence (with_plan (plan "interval")) _
      refl
