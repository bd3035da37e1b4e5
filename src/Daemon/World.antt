-- ===== src/Daemon/World.antt =====
-- The world of the daemon: the store of src/daemon.js (`MemoryStateStore`), the port of CodexApp
-- with the clock as parameters, and the methods that every path uses.
use codex_hooks.Base.{ℕ, String, Bool, Option, some, List, [], ◌∷◌, ◌++◌, Outcome, ok}
use codex_hooks.Base.Exec.{Exec, pure, ◌>>=◌, ◌>>◌}
use codex_hooks.Base.Dict.{Dict, lookup, put, values}
use codex_hooks.Protocol.Value.{Value, str}
use codex_hooks.Protocol.Names.{DeliveryState, HookKind}
use codex_hooks.Protocol.Normalize.{Target, Intent}
use codex_hooks.Protocol.Hooks.{HookEvent}
use codex_hooks.Daemon.Record.{
  Decision, Delivery, IntentRecord, HookResult, Suppression, fresh, result, object,
}

-- `MemoryStateStore`; of the controls, the one that the daemon itself writes.
pub record Store : Type 0 where
  pub events : Dict HookResult
  pub intents : Dict IntentRecord
  pub transitions : List Delivery
  pub stop_suppression : Dict Suppression

pub record SendRequest : Type 0 where
  pub target : Target
  pub body : String
  pub attempt_id : String

pub record SteerRequest : Type 0 where
  pub target : Target
  pub body : String
  pub attempt_id : String
  pub turn_id : Option String

pub record EvidenceRequest : Type 0 where
  pub target : Target
  pub attempt_id : Value
  pub after_state : DeliveryState

-- What the daemon is built with: the port of CodexApp, whose optional methods may be missing, the
-- clock, the intent factory and `Date.parse`. `E` is the state of what lies outside.
pub record Port (E : Type 0) : Type 0 where
  pub session_status : Target → E → Outcome Value × E
  pub send_message : SendRequest → E → Outcome Value × E
  pub steer_message : Option (SteerRequest → E → Outcome Value × E)
  pub delivery_evidence : Option (EvidenceRequest → E → Outcome Value × E)
  pub intent_factory : Option (HookEvent → HookKind → E → Outcome Value × E)
  pub clock : E → String × E
  pub parse_date : String → Option ℕ
  pub stringify : Value → String
  -- `left.localeCompare(right) <= 0`
  pub text_le : String → String → Bool

-- A message that was handed to the port.
pub data Call : Type 0 where
  sent : SendRequest → Call
  steered : SteerRequest → Call

-- The store, what lies outside, and the messages handed over so far, oldest first. The program
-- keeps no such list: it is there so that statements can speak of sends.
pub record World (E : Type 0) : Type 0 where
  pub store : Store
  pub outside : E
  pub calls : List Call

module _ {E : Type 0} where
  -- `await f()`, for a method of the port
  unfoldable pub ask : {A : Type 0} → (E → Outcome A × E) → Exec (World E) A
  ask f w = let (r, e) = f w.outside in (r, record w { outside = e })

  -- `this.store.getIntent(key)`
  unfoldable pub get_intent : String → Exec (World E) (Option IntentRecord)
  get_intent key w = (ok (lookup key w.store.intents), w)

  unfoldable pub list_intents : Exec (World E) (List IntentRecord)
  list_intents w = (ok (values w.store.intents), w)

  -- `this.store.putIntent(key, value)`
  unfoldable pub put_intent : String → IntentRecord → Exec (World E) Unit
  put_intent key r w =
      (ok tt, record w { store = record w.store { intents = put key r w.store.intents } })

  unfoldable pub get_event : String → Exec (World E) (Option HookResult)
  get_event key w = (ok (lookup key w.store.events), w)

  unfoldable pub put_event : String → HookResult → Exec (World E) Unit
  put_event key r w =
      (ok tt, record w { store = record w.store { events = put key r w.store.events } })

  unfoldable pub record_transition : Delivery → Exec (World E) Unit
  record_transition d w =
      (ok tt, record w { store = record w.store { transitions = w.store.transitions ++ d ∷ [] } })

  unfoldable pub note_call : Call → Exec (World E) Unit
  note_call c w = (ok tt, record w { calls = w.calls ++ c ∷ [] })

  -- `this.transition(intent, state, evidence)`; a delivery in the place of the intent has the
  -- same five fields.
  unfoldable pub transition : Intent → DeliveryState → Value → Exec (World E) Delivery
  transition intent state evidence = do
    let d : Delivery = record {
      intent_id = intent.intent_id;
      source = intent.source;
      target = intent.target;
      body = intent.body;
      send_mode = intent.send_mode;
      state = state;
      evidence = evidence;
    }
    record_transition d
    pure d

  -- `this.rememberIntent(intent, delivery, decision)`
  unfoldable pub remember_intent : Intent → Delivery → Decision → Exec (World E) Unit
  remember_intent intent delivery decision =
      put_intent intent.intent_id
        (record { delivery = delivery; decision = decision; intent = intent })

  module _ (port : Port E) where
    -- `this.now()`
    unfoldable pub now : Exec (World E) String
    now w = let (at, e) = port.clock w.outside in (ok at, record w { outside = e })

    -- `this.fail(event, hookKind, intent, code, state, message)`
    unfoldable pub fail_intent :
        String → String → Intent → String → String → String → Exec (World E) HookResult
    fail_intent event kind intent code state message = do
      at ← now
      delivery ← transition intent DeliveryState.failed (
          object (
            ("code", str code)
            ∷ ("state", str state)
            ∷ ("message", str message)
            ∷ ("at", str at)
            ∷ []))
      remember_intent intent delivery Decision.failed
      pure (record (result event kind Decision.fail_closed) {
        delivery = some (fresh delivery);
        error = some (record { code = code; message = message });
      })

-- Opening this opens the primitive methods.
unfoldable pub primitives : Unit {0}
unfolding ◌>>=◌ ask get_intent list_intents put_intent get_event put_event record_transition
    note_call transition remember_intent now
primitives = tt
