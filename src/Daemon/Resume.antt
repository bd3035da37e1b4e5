-- ===== src/Daemon/Resume.antt =====
-- src/daemon.js: `flushPending` with `resumePendingIntent` and the identities of its attempts.
use Prim.Native.Char.{code}
use codex_hooks.Base.{
  keep, ℕ, ◌+◌, ◌-◌, ◌*◌, ◌^◌, String, Bool, true, false, not, ◌&&◌, ◌||◌, Option, none, some, List,
  [], ◌∷◌, ◌==◌, if◌then◌else◌, concat, leb, fault, strip_prefix, map, ◌++◌,
}
use codex_hooks.Base.Exec.{Exec, pure, raise, lift, on_option, attempt, ◌>>=◌, ◌>>◌}
use codex_hooks.Protocol.Value.{is_text, Value, str, get, decimal}
use codex_hooks.Protocol.Names.{
  BusyPolicy, DeliveryState, SessionState, session_state_name, source_name,
}
use codex_hooks.Protocol.Normalize.{Intent, Target, Observation, normalize_session_observation}
use codex_hooks.Daemon.Record.{
  Decision, Delivery, HookResult, IntentRecord, Shown, fresh, kept, result, object, is_deferred,
}
use codex_hooks.Daemon.World.{
  Port, World, ask, get_intent, list_intents, now, transition, remember_intent,
}
use codex_hooks.Daemon.Receipts.{code_or}
use codex_hooks.Daemon.Identity.{assert_same_intent, same_target}
use codex_hooks.Daemon.Send.{send}
use codex_hooks.Daemon.Dispatch.{is_fail_closed, is_send_eligible}

-- `Number(text)` for a text of digits; no other text passes the tests that follow.
parse_digits : ℕ → String → Option ℕ
parse_digits n String.[] = some n
parse_digits n (String.◌∷◌ c s) =
    let d = code c in
    let rest = parse_digits (n * 10 + (d - 48)) s in if leb 48 d && leb d 57 then rest else none

-- `Number.isSafeInteger(n) && n >= 1 && String(n) === suffix`
unfoldable pub sequence_of : String → Option ℕ
unfolding parse_digits
sequence_of suffix = elim (parse_digits 0 suffix) [
  | none ↦ none
  | some n ↦ if leb n (2 ^ 53 - 1) && leb 1 n && decimal n == suffix then some n else none
]

-- `${base}:${n}`
abbrev pub numbered : String → ℕ → String
numbered base n = concat (base ∷ ":" ∷ decimal n ∷ [])

unfoldable pub next_after : String → Option String → String
next_after base none = numbered base 1
next_after base (some suffix) = elim (sequence_of suffix) [
  | none ↦ numbered base 1
  | some n ↦ numbered base (n + 1)
]

unfoldable pub next_resume_attempt_id : String → IntentRecord → String
next_resume_attempt_id intent_id existing =
    let base = concat (intent_id ∷ ":resume" ∷ []) in
    elim (get existing.evidence "attempt_id") [
      | str previous ↦ next_after base (strip_prefix (concat (base ∷ ":" ∷ [])) previous)
      | _ ↦ numbered base 1
    ]

-- An entry of the list `failed`: what a call returned, or what it threw.
pub data Failure : Type 0 where
  returned : Option Shown → Failure
  thrown : String → SessionState → String → String → Failure

pub record FlushLists : Type 0 where
  pub sent : List (Option Shown)
  pub deferred : List (Option Shown)
  pub skipped : List Delivery
  pub failed : List Failure

pub record FlushResult : Type 0 where
  pub state : SessionState
  pub decision : Decision
  pub lists : FlushLists

abbrev pub no_lists : FlushLists
no_lists = record { sent = []; deferred = []; skipped = []; failed = [] }

abbrev pub shown_evidence : Shown → Value
shown_evidence (fresh d) = d.evidence
shown_evidence (kept r) = r.evidence

abbrev pub busy_evidence : Option Shown → Option Value
busy_evidence none = none
busy_evidence (some s) =
    if is_text (get (shown_evidence s) "code") "native_thread_busy"
    then some (shown_evidence s)
    else none

abbrev pub is_skip : BusyPolicy → Bool
is_skip BusyPolicy.skip = true
is_skip BusyPolicy.defer = false

-- `record.decision === "deferred" && sameTarget(record.target, target)`
unfoldable pub is_pending : Target → IntentRecord → Bool
is_pending target r = is_deferred r.decision && same_target r.target target

-- The decision of a whole flush, from its lists.
unfoldable pub flush_decision : FlushLists → Decision
flush_decision lists = elim lists.deferred [
  | _ ∷ _ ↦ Decision.deferred
  | [] ↦ elim lists.skipped [
    | _ ∷ _ ↦ Decision.skipped
    | [] ↦ elim lists.sent [
      | _ ∷ _ ↦ Decision.sent
      | [] ↦ elim lists.failed [ _ ∷ _ ↦ Decision.fail_closed | [] ↦ Decision.sent ]
    ]
  ]
]

module _ {E : Type 0} (port : Port E) where
  -- `this.resumePendingIntent(intent, state)`, with no send of the intent in flight
  unfoldable pub resume_pending : Intent → SessionState → Exec (World E) HookResult
  resume_pending intent state = do
    found ← get_intent intent.intent_id
    on_option found
        (raise (fault (concat ("deferred intent disappeared: " ∷ intent.intent_id ∷ []))))
        (λ existing. do
          lift (assert_same_intent existing.intent intent)
          if is_deferred existing.decision
              then send port "daemon:resume" (source_name intent.source) intent
                  (session_state_name state) (next_resume_attempt_id intent.intent_id existing)
              else pure
                  (record (result "daemon:resume" (source_name intent.source) existing.decision) {
                    delivery = some (kept existing);
                  }))

  -- A deferred intent whose policy is to skip a busy thread is cancelled.
  unfoldable pub skip_intent : Intent → SessionState → Value → Exec (World E) Delivery
  skip_intent intent state evidence = do
    at ← now port
    d ← transition intent DeliveryState.cancelled (
        object (
          ("state", str (session_state_name state))
          ∷ ("code", str "native_thread_busy")
          ∷ ("message", get evidence "message")
          ∷ ("attempt_id", get evidence "attempt_id")
          ∷ ("at", str at)
          ∷ []))
    remember_intent intent d Decision.skipped
    pure d

  -- What one round of the loop does with a result of this decision.
  unfoldable pub sort_decision :
      Decision → Intent → SessionState → FlushLists → Option Shown → Exec (World E) FlushLists
  sort_decision Decision.sent intent state lists shown =
      pure (record lists { sent = lists.sent ++ shown ∷ [] })
  sort_decision Decision.deferred intent state lists shown =
      on_option (if is_skip intent.busy_policy then busy_evidence shown else none)
        (pure (record lists { deferred = lists.deferred ++ shown ∷ [] }))
        (λ evidence. do
          d ← skip_intent intent state evidence
          pure (record lists { skipped = lists.skipped ++ d ∷ [] }))
  sort_decision _ intent state lists shown =
      pure (record lists { failed = lists.failed ++ returned shown ∷ [] })

  unfoldable pub sort_result :
      Intent → SessionState → FlushLists → HookResult → Exec (World E) FlushLists
  sort_result intent state lists r = sort_decision r.decision intent state lists r.delivery

  unfoldable pub flush_one : SessionState → Intent → FlushLists → Exec (World E) FlushLists
  flush_one state intent lists =
      attempt (do r ← resume_pending intent state; sort_result intent state lists r)
        (λ error. pure (record lists {
          failed =
              lists.failed
              ++ thrown intent.intent_id state (code_or "send_failed" error) error.message ∷ [];
        }))

  unfoldable pub flush_all : SessionState → List Intent → FlushLists → Exec (World E) FlushLists
  flush_all state [] lists = pure lists
  flush_all state (intent ∷ rest) lists = do
    lists' ← flush_one state intent lists
    flush_all state rest lists'

  -- A pending intent of a session that has failed.
  unfoldable pub close_intent : SessionState → Intent → Exec (World E) Delivery
  close_intent state intent = do
    at ← now port
    d ← transition intent DeliveryState.failed (
        object (
          ("code", str (concat (session_state_name state ∷ "_session" ∷ [])))
          ∷ ("state", str (session_state_name state))
          ∷ ("at", str at)
          ∷ []))
    remember_intent intent d Decision.fail_closed
    pure d

  unfoldable pub close_all : SessionState → List Intent → Exec (World E) (List Failure)
  close_all state [] = pure []
  close_all state (intent ∷ rest) = do
    d ← close_intent state intent
    ds ← close_all state rest
    pure (returned (some (fresh d)) ∷ ds)

  -- The tests of `flushPending` on an observation.
  unfoldable pub flush : Target → Observation → List IntentRecord → Exec (World E) FlushResult
  flush target o pending =
      let deferred = map (λ (r : IntentRecord). r.intent) (keep (is_pending target) pending) in
      if is_fail_closed o.state
      then (do
        failed ← close_all o.state deferred
        pure (record {
          state = o.state;
          decision = Decision.fail_closed;
          lists = record no_lists { failed = failed };
        }))
      else if o.input_active || not (is_send_eligible o.state)
      then pure (record { state = o.state; decision = Decision.deferred; lists = no_lists })
      else (do
        lists ← flush_all o.state deferred no_lists
        pure (record { state = o.state; decision = flush_decision lists; lists = lists }))

  -- `this.flushPending(target)`
  unfoldable pub flush_pending : Target → Exec (World E) FlushResult
  flush_pending target = do
    status ← ask (port.session_status target)
    pending ← list_intents
    flush target (normalize_session_observation status) pending
