-- ===== src/Daemon/Gate.antt =====
-- The gate of `dispatchOnce` against the table of docs/design/state-machine.md.
use codex_hooks.Base.{
  [], ◌∷◌, concat, arith, not, if◌then◌else◌, String, Bool, true, false, ◌≡◌, refl, ◌++◌, ◌&&◌,
}
use codex_hooks.Daemon.Dispatch
use codex_hooks.Protocol.Names.{
  session_state_name, DeliveryState, SendMode, SendOperation, SessionState,
}
use codex_hooks.Protocol.Normalize.{Intent, Observation}
use codex_hooks.Daemon.Record.{Decision}
use codex_hooks.Daemon.World.{primitives, fail_intent, Port, World}
use codex_hooks.Daemon.Dispatch.{
  is_deferred_state, is_idle_only, is_interrupt, must_defer, is_send_eligible, is_live_turn,
  is_working, is_fail_closed, gate,
}
use codex_hooks.Daemon.Send.{is_steer, send}
use codex_hooks.Daemon.Silent.{Silent-IsFrame, Silent, calls-send, handed_over}
use codex_hooks.Daemon.Settled.{fail_intent-IsStored, IsStored, IsSettled}
use codex_hooks.Daemon.Settled.Send.{send-IsSettled}
use codex_hooks.Daemon.Frame.{fail_intent-Moves}
use codex_hooks.Base.Dict.{lookup-put_self}

pub data Verdict : Type 0 where
  pass hold refuse : Verdict

-- The documented table: what a session state and a send mode allow.
abbrev pub table : SessionState → SendMode → Verdict
table SessionState.idle _ = pass
table SessionState.working SendMode.idle_only = hold
table SessionState.working SendMode.working_allowed = pass
table SessionState.interrupted _ = pass
table SessionState.waiting_for_input _ = pass
table SessionState.stopping _ = hold
table SessionState.stopped _ = pass
table SessionState.starting _ = hold
table SessionState.unknown _ = refuse
table SessionState.disconnected _ = refuse
table SessionState.failed _ = refuse

-- Input in progress holds back what the table would let pass.
abbrev pub with_input : Bool → Verdict → Verdict
with_input true pass = hold
with_input _ v = v

-- What passes must also fit its operation: a steering message needs the live turn of a working
-- session, and an interrupt is never sent as a message.
abbrev pub with_operation : SendOperation → Bool → Verdict → Verdict
with_operation SendOperation.steer false pass = refuse
with_operation SendOperation.interrupt _ pass = refuse
with_operation _ _ v = v

pub verdict : Intent → Observation → Verdict
verdict intent o =
    with_operation intent.operation
      (is_working o.state && is_live_turn o.active_turn_id intent.turn_id)
      (with_input o.input_active (table o.state intent.send_mode))

-- What each verdict does to the world, for the messages handed over and the stored record.
abbrev pub Follows : {E : Type 0} → Port E → Intent → World E → World E → Verdict → Type 0
Follows port intent w w' pass =
    (w'.calls ≡ w.calls ++ handed_over port intent intent.intent_id) × IsSettled intent w'
Follows port intent w w' hold =
    (w'.calls ≡ w.calls) × IsStored intent DeliveryState.deferred Decision.deferred w'
Follows port intent w w' refuse =
    (w'.calls ≡ w.calls) × IsStored intent DeliveryState.failed Decision.failed w'

-- The verdict of five tests made in a row.
abbrev first_of_tests : Bool → Bool → Bool → Bool → Bool → Verdict
first_of_tests closed deferred unsendable mistimed interrupting =
    if closed
    then refuse
    else if deferred
    then hold
    else if unsendable
    then refuse
    else if mistimed
    then refuse
    else if interrupting
    then refuse
    else pass

abbrev is_unsendable : Intent → Observation → Bool
is_unsendable intent o =
    not (is_send_eligible o.state)
    && not (is_working o.state && not (is_idle_only intent.send_mode))

abbrev is_mistimed : Intent → Observation → Bool
is_mistimed intent o =
    is_steer intent.operation
    && not (is_working o.state && is_live_turn o.active_turn_id intent.turn_id)

verdict-first_of_tests :
    (intent : Intent) (o : Observation)
    → verdict intent o
      ≡ first_of_tests
          (is_fail_closed o.state)
          (must_defer intent o)
          (is_unsendable intent o)
          (is_mistimed intent o)
          (is_interrupt intent.operation)
unfolding verdict is_fail_closed is_send_eligible must_defer is_steer is_interrupt is_working
    is_idle_only is_deferred_state
verdict-first_of_tests intent o = ground arith

module _ {E : Type 0} (port : Port E) (event kind : String) (intent : Intent) where
  Follows-fail :
      (code state message : String) (w : World E)
      → Follows port intent w (fail_intent port event kind intent code state message w).1 refuse
  Follows-fail code state message w = (
    ((fail_intent-Moves port intent Silent (Silent-IsFrame port intent) event kind code state
          message).at
        w).same,
    fail_intent-IsStored port intent event kind code state message w,
  )

  Follows-defer :
      (o : Observation) (w : World E)
      → Follows port intent w (Dispatch.defer port event kind intent o w).1 hold
  unfolding Dispatch.defer primitives
  Follows-defer o w = (
    refl,
    record {
      delivery = _;
      found = lookup-put_self intent.intent_id _ w.store.intents;
      reached = refl;
    },
  )

  Follows-send :
      (state : String) (w : World E)
      → Follows port intent w (send port event kind intent state intent.intent_id w).1 pass
  Follows-send state w = (
    calls-send port event kind intent state intent.intent_id w,
    send-IsSettled port intent event kind state intent.intent_id w,
  )

  Follows-tests :
      (closed deferred unsendable mistimed interrupting : Bool) (o : Observation)
      (state code₁ code₂ code₃ code₄ : String) (w : World E)
      → Follows port intent w
          ((if closed
              then fail_intent port event kind intent code₁ state code₁
              else if deferred
              then Dispatch.defer port event kind intent o
              else if unsendable
              then fail_intent port event kind intent code₂ state code₂
              else if mistimed
              then fail_intent port event kind intent code₃ state code₃
              else if interrupting
              then fail_intent port event kind intent code₄ state code₄
              else send port event kind intent state intent.intent_id)
            w).1
          (first_of_tests closed deferred unsendable mistimed interrupting)
  Follows-tests true d u m i o state c₁ c₂ c₃ c₄ w = Follows-fail c₁ state c₁ w
  Follows-tests false true u m i o state c₁ c₂ c₃ c₄ w = Follows-defer o w
  Follows-tests false false true m i o state c₁ c₂ c₃ c₄ w = Follows-fail c₂ state c₂ w
  Follows-tests false false false true i o state c₁ c₂ c₃ c₄ w = Follows-fail c₃ state c₃ w
  Follows-tests false false false false true o state c₁ c₂ c₃ c₄ w = Follows-fail c₄ state c₄ w
  Follows-tests false false false false false o state c₁ c₂ c₃ c₄ w = Follows-send state w

  -- The gate implements the documented table: on the verdict `pass` the intent's message is
  -- handed to the port once and its record settled; on `hold` the intent is stored as deferred
  -- and on `refuse` as failed, and in both cases nothing is handed over.
  pub gate-Follows :
      (o : Observation) (w : World E)
      → Follows port intent w (gate port event kind intent o w).1 (verdict intent o)
  unfolding gate
  gate-Follows o w =
      let state = session_state_name o.state in
      rw verdict-first_of_tests (
        Follows-tests (is_fail_closed o.state) (must_defer intent o) (is_unsendable intent o)
          (is_mistimed intent o) (is_interrupt intent.operation) o state
          (concat (state ∷ "_session" ∷ [])) "session_not_sendable"
          "steer_requires_live_working_turn" "interrupt_is_explicit_stop_only" w)
