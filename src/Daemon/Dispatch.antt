-- ===== src/Daemon/Dispatch.antt =====
-- src/daemon.js: `dispatchOnce` with its gate, and `dispatch`, for calls that run one after the
-- other: the table of intents in flight is then empty at each call.
use codex_hooks.Base.{
  ℕ, String, Bool, true, false, not, ◌&&◌, ◌||◌, Option, none, some, [], ◌∷◌, Outcome, ok, throws,
  if◌then◌else◌, concat, leb, or_else,
}
use codex_hooks.Base.Exec.{on_option, Exec, pure, lift, ◌>>=◌, ◌>>◌}
use codex_hooks.Protocol.Value.{Value, str, bool, is_text}
use codex_hooks.Protocol.Names.{
  DeliveryState, SendOperation, SessionState, session_state_name, SendMode,
}
use codex_hooks.Protocol.Normalize.{Intent, Target, Observation, normalize_session_observation}
use codex_hooks.Daemon.Record.{Decision, HookResult, fresh, kept, result, object}
use codex_hooks.Daemon.World.{
  Port, World, get_intent, transition, remember_intent, now, fail_intent,
}
use codex_hooks.Daemon.Receipts.{map_session_status_error}
use codex_hooks.Daemon.Identity.{assert_same_intent}
use codex_hooks.Daemon.Send.{is_steer, send}

-- `FAIL_CLOSED_SESSION_STATES.includes(state)`
unfoldable pub is_fail_closed : SessionState → Bool
is_fail_closed SessionState.disconnected = true
is_fail_closed SessionState.failed = true
is_fail_closed SessionState.unknown = true
is_fail_closed _ = false

-- `SEND_ELIGIBLE_STATES.includes(state)`
unfoldable pub is_send_eligible : SessionState → Bool
is_send_eligible SessionState.idle = true
is_send_eligible SessionState.interrupted = true
is_send_eligible SessionState.waiting_for_input = true
is_send_eligible SessionState.stopped = true
is_send_eligible _ = false

-- `DEFERRED_SESSION_STATES.includes(state)`
unfoldable pub is_deferred_state : SessionState → Bool
is_deferred_state SessionState.working = true
is_deferred_state SessionState.stopping = true
is_deferred_state SessionState.starting = true
is_deferred_state _ = false

unfoldable pub is_working : SessionState → Bool
is_working SessionState.working = true
is_working _ = false

unfoldable pub is_idle_only : SendMode → Bool
is_idle_only SendMode.idle_only = true
is_idle_only SendMode.working_allowed = false

unfoldable pub is_interrupt : SendOperation → Bool
is_interrupt SendOperation.interrupt = true
is_interrupt _ = false

-- `intent.turn_id && observation.active_turn_id === intent.turn_id`
unfoldable pub is_live_turn : Value → Option String → Bool
is_live_turn active none = false
is_live_turn active (some turn) = is_text active turn

-- The condition under which `dispatchOnce` stores the intent for later.
unfoldable pub must_defer : Intent → Observation → Bool
must_defer intent o =
    o.input_active
    || (is_working o.state && is_idle_only intent.send_mode)
    || (is_deferred_state o.state && not (is_working o.state))

-- `Date.parse(expiresAt) <= Date.parse(now)`; a comparison with NaN is false.
unfoldable pub is_past : (String → Option ℕ) → String → String → Bool
is_past parse_date expires_at at = elim (parse_date expires_at) [
  | none ↦ false
  | some due ↦ elim (parse_date at) [ none ↦ false | some current ↦ leb due current ]
]

module _ {E : Type 0} (port : Port E) where
  -- The first test of `dispatchOnce`: the clock is read only for an intent that can expire.
  unfoldable pub is_expired : Intent → Exec (World E) Bool
  is_expired intent =
      on_option intent.expires_at (pure false)
        (λ expires_at. do at ← now port; pure (is_past port.parse_date expires_at at))

  unfoldable pub expire : String → String → Intent → Exec (World E) HookResult
  expire event kind intent = do
    at ← now port
    delivery ←
        transition intent DeliveryState.expired
          (object (("at", str at) ∷ ("expires_at", str (or_else intent.expires_at "")) ∷ []))
    remember_intent intent delivery Decision.expired
    pure (record (result event kind Decision.expired) { delivery = some (fresh delivery) })

  unfoldable pub defer : String → String → Intent → Observation → Exec (World E) HookResult
  defer event kind intent o = do
    at ← now port
    delivery ← transition intent DeliveryState.deferred (
        object (
          ("state", str (session_state_name o.state))
          ∷ ("input_active", bool o.input_active)
          ∷ ("at", str at)
          ∷ []))
    remember_intent intent delivery Decision.deferred
    pure (record (result event kind Decision.deferred) { delivery = some (fresh delivery) })

  -- The tests of `dispatchOnce` on an observation, in the order of the source. The observation is
  -- normalised, so that its state is one of `SESSION_STATES`.
  unfoldable pub gate : String → String → Intent → Observation → Exec (World E) HookResult
  gate event kind intent o =
      let state = session_state_name o.state in
      if is_fail_closed o.state
      then fail_intent port event kind intent (concat (state ∷ "_session" ∷ [])) state
          (concat (state ∷ "_session" ∷ []))
      else if must_defer intent o
      then defer event kind intent o
      else if not (is_send_eligible o.state)
          && not (is_working o.state && not (is_idle_only intent.send_mode))
      then fail_intent port event kind intent "session_not_sendable" state "session_not_sendable"
      else if is_steer intent.operation
          && not (is_working o.state && is_live_turn o.active_turn_id intent.turn_id)
      then fail_intent port event kind intent "steer_requires_live_working_turn" state
          "steer_requires_live_working_turn"
      else if is_interrupt intent.operation
      then fail_intent port event kind intent "interrupt_is_explicit_stop_only" state
          "interrupt_is_explicit_stop_only"
      else send port event kind intent state intent.intent_id

  -- What follows the answer of `session_status`.
  unfoldable pub observed : String → String → Intent → Outcome Value → Exec (World E) HookResult
  observed event kind intent (ok status) =
      gate event kind intent (normalize_session_observation status)
  observed event kind intent (throws error) =
      fail_intent port event kind intent (map_session_status_error error)
        (or_else error.code "session_status_failed") error.message

  -- `session_status` under its `try`: the answer, or what it threw
  unfoldable pub ask_status : Target → Exec (World E) (Outcome Value)
  ask_status target w =
      let (status, e) = port.session_status target w.outside in
      (ok status, record w { outside = e })

  unfoldable pub dispatch_once : String → String → Intent → Exec (World E) HookResult
  dispatch_once event kind intent = do
    past ← is_expired intent
    if past
        then expire event kind intent
        else do status ← ask_status intent.target; observed event kind intent status

  -- `this.dispatch(event, hookKind, intent)`
  unfoldable pub dispatch : String → String → Intent → Exec (World E) HookResult
  dispatch event kind intent = do
    found ← get_intent intent.intent_id
    on_option found (dispatch_once event kind intent) (λ existing. do
      lift (assert_same_intent existing.intent intent)
      pure (record (result event kind existing.decision) { delivery = some (kept existing) }))
