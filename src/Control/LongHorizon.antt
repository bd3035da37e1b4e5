-- ===== src/Control/LongHorizon.antt =====
-- src/control.js: `registerLongHorizon`.
use codex_hooks.Base.{
  ℕ, ◌+◌, String, Option, some, none, List, [], ◌∷◌, ◌==◌, ◌&&◌, not, member, concat, require,
  fault, if◌then◌else◌, true, or_else, is_some, Outcome, ok, throws,
}
use codex_hooks.Base.Exec.{Exec, pure, raise, lift, on_option, ◌>>=◌, ◌>>◌}
use codex_hooks.Base.Dict.{Dict, lookup, put}
use codex_hooks.Protocol.Value.{Value, get, str, undefined, is_nullish, or_value}
use codex_hooks.Protocol.Normalize.{Target, assert_non_empty}
use codex_hooks.Daemon.Record.{object}
use codex_hooks.Timer.Schedule.{or_text}
use codex_hooks.Timer.Requests.{target_value}
use codex_hooks.Control.Store.{
  LongHorizon, ControlState, Host, horizons_of, put_horizons, read_clock, iso_of,
}
use codex_hooks.Control.Operators.{resolve_session_target, sync_operator_state}
use codex_hooks.Control.Upsert.{positive_of}
use codex_hooks.Control.Add.{upsert_schedule}

-- `LONGHORIZON_LIVENESS_DELAY_MS`
abbrev pub liveness_delay_ms : ℕ
liveness_delay_ms = 60000

-- `value == null ? {} : { name: assertNonEmpty(value, name) }`, on a text
unfoldable pub text_or_missing : Value → String → Outcome String
text_or_missing value name = if is_nullish value then ok "" else assert_non_empty value name

-- `value == null ? {} : { name: positiveInteger(value, name) }`
unfoldable pub positive_or_missing : Value → String → Outcome (Option ℕ)
positive_or_missing value name =
    if is_nullish value then ok none else on_positive (positive_of value) name
  where
    on_positive : Option ℕ → String → Outcome (Option ℕ)
    on_positive none label = throws (fault (concat (label ∷ " must be a positive integer" ∷ [])))
    on_positive (some n) label = ok (some n)

-- The message of a goal's liveness schedule.
abbrev pub liveness_body : String → String
liveness_body goal_file = concat (
    "LongHorizon goal liveness check. Read " ∷ goal_file
    ∷ " and continue executing the goal if the target is idle or interrupted. Do not duplicate work if it is already active or running."
    ∷ [])

-- The request of the schedule of a record, as `registerLongHorizon` and `reconcileLongHorizon`
-- write it.
abbrev pub horizon_request : String → Value → ℕ → String → Target → String → Value
horizon_request id at interval_ms body target owner = object (
    ("operation", str "schedule.upsert")
    ∷ ("id", str id)
    ∷ ("action", str "notify")
    ∷ ("mode", str "interval")
    ∷ ("at", at)
    ∷ ("interval_ms", Value.num interval_ms)
    ∷ ("body", str body)
    ∷ ("target", target_value target)
    ∷ ("send_mode", str "idle_only")
    ∷ ("busy_policy", str "skip")
    ∷ ("owner_session_id", str owner)
    ∷ ("source", str "longhorizon")
    ∷ [])

-- `{ operation, id }` and what an update adds
abbrev pub schedule_request : String → String → List (String × Value) → Value
schedule_request operation id more = object (("operation", str operation) ∷ ("id", str id) ∷ more)

module _ {D : Type 0} (host : Host D) where
  -- `new Date(Date.parse(text) + LONGHORIZON_LIVENESS_DELAY_MS).toISOString()`
  unfoldable pub delayed : String → Exec (ControlState D) String
  delayed text =
      on_option (host.parse_date text) (raise (fault "Invalid time value"))
        (λ ms. iso_of host (ms + liveness_delay_ms))

  -- The record as the request describes it, before its schedule is made.
  unfoldable pub described : String → String → Value → Exec (ControlState D) LongHorizon
  described id mode request = do
    registered_at ← read_clock host.now
    activated_at ← read_clock host.now
    goal_file ← lift (text_or_missing (get request "goal_file") "goal_file")
    prompt ← lift (text_or_missing (get request "prompt") "prompt")
    session ← lift (text_or_missing (get request "session") "session")
    interval_ms ← lift (positive_or_missing (get request "interval_ms") "interval_ms")
    owner ← lift (text_or_missing (get request "owner_session_id") "owner_session_id")
    review_budget ← lift (positive_or_missing (get request "review_budget") "review_budget")
    pure (record {
      id = id;
      mode = mode;
      enabled = true;
      state = "active";
      activated_at = activated_at;
      goal_file = goal_file;
      prompt = prompt;
      session = session;
      interval_ms = interval_ms;
      owner_session_id = owner;
      review_budget = review_budget;
      review_count = none;
      target = none;
      schedule_id = "";
      schedule_state = "";
      liveness_schedule_id = "";
      liveness_check_due_at = "";
      liveness_state = "";
      stamps = ("registered_at", registered_at) ∷ [];
      review = undefined;
    })

  -- `request.at || new Date().toISOString()`
  unfoldable pub start_of : Value → Exec (ControlState D) Value
  start_of request = do at ← read_clock host.date_now; pure (or_value (get request "at") (str at))

  unfoldable pub register_periodic : LongHorizon → Value → Exec (ControlState D) LongHorizon
  register_periodic r request = do
    lift (
        require (not (r.prompt == "") && not (r.session == "") && is_some r.interval_ms)
          (fault "periodic longhorizon requires prompt, session, and interval_ms"))
    target ← resolve_session_target (str r.session)
    at ← start_of request
    s ← upsert_schedule host (
        horizon_request (concat ("longhorizon:" ∷ r.id ∷ [])) at (or_else r.interval_ms 0) r.prompt
          target (or_text r.owner_session_id target.thread_id))
    pure (record r {
      target = some target;
      owner_session_id = or_text r.owner_session_id target.thread_id;
      schedule_id = s.id;
      schedule_state = "enabled";
    })

  unfoldable pub register_goal : LongHorizon → Exec (ControlState D) LongHorizon
  register_goal r = do
    lift (
        require (not (r.goal_file == "") && not (r.session == ""))
          (fault "goal longhorizon requires goal_file and session"))
    target ← resolve_session_target (str r.session)
    at ← delayed r.activated_at
    s ← upsert_schedule host (
        horizon_request (concat ("longhorizon-liveness:" ∷ r.id ∷ [])) (str at) liveness_delay_ms
          (liveness_body r.goal_file) target (or_text r.owner_session_id target.thread_id))
    pure (record r {
      target = some target;
      owner_session_id = or_text r.owner_session_id target.thread_id;
      review_count = some (or_else r.review_count 0);
      liveness_schedule_id = s.id;
      liveness_check_due_at = s.at;
      liveness_state = "scheduled";
    })

  -- A record whose id is new.
  unfoldable pub register_new :
      String → String → Value → Dict LongHorizon → Exec (ControlState D) LongHorizon
  register_new id mode request records = do
    r ← described id mode request
    registered ← if mode == "periodic" then register_periodic r request else register_goal r
    put_horizons (put id registered records)
    sync_operator_state (put id registered records)
    pure registered

  unfoldable pub register_long_horizon : Value → Exec (ControlState D) LongHorizon
  register_long_horizon request = do
    id ← lift (assert_non_empty (get request "id") "id")
    mode ← lift (assert_non_empty (get request "mode") "mode")
    lift (
        require (member mode ("periodic" ∷ "goal" ∷ []))
          (fault (concat ("unsupported longhorizon mode: " ∷ mode ∷ []))))
    records ← horizons_of
    on_option (lookup id records) (register_new id mode request records) (λ existing. do
      lift (
          require (existing.mode == mode) (
            fault
              (concat ("longhorizon id is already registered with different mode: " ∷ id ∷ []))))
      pure existing)
