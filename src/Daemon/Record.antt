-- ===== src/Daemon/Record.antt =====
-- src/daemon.js: the values that the daemon stores and returns.
use codex_hooks.Base.{String, Bool, true, false, Option, none, some, List, [], ◌∷◌}
use codex_hooks.Protocol.Value.{Value, obj, Fields, field, end}
use codex_hooks.Protocol.Names.{DeliveryState, MessageSource, SendMode}
use codex_hooks.Protocol.Normalize.{Target, Intent}

-- The decisions of results and of stored intents.
pub data Decision : Type 0 where
  guarded observed expired deferred fail_closed sent unknown_delivery skipped failed : Decision
  emitted sending : Decision

-- What `transition` builds and records.
pub record Delivery : Type 0 where
  pub intent_id : String
  pub source : MessageSource
  pub target : Target
  pub body : String
  pub send_mode : SendMode
  pub state : DeliveryState
  pub evidence : Value

-- What `rememberIntent` stores: `{ ...delivery, decision, intent }`.
pub record IntentRecord : Type 0 where
  pub delivery : Delivery
  pub open delivery use *
  pub decision : Decision
  pub intent : Intent

-- The `delivery` of a result: a new delivery, or the stored record of an intent.
pub data Shown : Type 0 where
  fresh : Delivery → Shown
  kept : IntentRecord → Shown

pub record ErrorInfo : Type 0 where
  pub code : String
  pub message : String

pub record HookResult : Type 0 where
  pub event : String
  pub kind : String
  pub decision : Decision
  pub delivery : Option Shown
  pub error : Option ErrorInfo
  pub hook_output : Option Value
  pub guard : Option String
  pub idempotent : Bool

-- `this.result(event, hookKind, decision, {})`
abbrev pub result : String → String → Decision → HookResult
result event kind decision = record {
  event = event;
  kind = kind;
  decision = decision;
  delivery = none;
  error = none;
  hook_output = none;
  guard = none;
  idempotent = false;
}

-- One entry of the control `stop_suppression`.
pub record Suppression : Type 0 where
  pub session_id : String
  pub turn_id : Option String
  pub hook_event_name : String
  pub reason : Value
  pub source : Value
  pub observed_at : String

-- An object literal.
abbrev pub fields : List (String × Value) → Fields
fields [] = end
fields ((k, v) ∷ rest) = field k v (fields rest)

abbrev pub object : List (String × Value) → Value
object entries = obj (fields entries)

-- `DELIVERY_EVIDENCE_NEXT`
unfoldable pub evidence_next : DeliveryState → Option DeliveryState
evidence_next DeliveryState.unknown_delivery = some DeliveryState.delivered
evidence_next DeliveryState.accepted = some DeliveryState.delivered
evidence_next DeliveryState.delivered = some DeliveryState.executed
evidence_next DeliveryState.executed = some DeliveryState.replied
evidence_next DeliveryState.replied = some DeliveryState.read
evidence_next DeliveryState.read = some DeliveryState.consumed
evidence_next _ = none

-- `record.decision === "deferred"`
abbrev pub is_deferred : Decision → Bool
is_deferred Decision.deferred = true
is_deferred _ = false

-- `["emitted", "sending"].includes(record.state)`
abbrev pub is_unresolved : DeliveryState → Bool
is_unresolved DeliveryState.emitted = true
is_unresolved DeliveryState.sending = true
is_unresolved _ = false
