-- ===== src/Daemon/Frame/Dispatch.antt =====
-- The frame of `send`, `dispatchOnce` and `dispatch`: with the two steps that leave the intent's
-- own record, they too keep every relation that the primitive steps keep.
use codex_hooks.Daemon.Dispatch
use codex_hooks.Base.{throws, ok, Outcome, Fault, String}
use codex_hooks.Base.Exec.Moves.{IsPreorder, Moves, moves_rules}
use codex_hooks.Daemon.Frame.{
  defer-Moves, send_failed-Moves, fail_intent-Moves, reserve-Moves, is_expired-Moves, expire-Moves,
  received-Moves, IsFrame,
}
use codex_hooks.Daemon.World.{get_intent, fail_intent, World, Port}
use codex_hooks.Protocol.Normalize.{Target, Observation, Intent}
use codex_hooks.Protocol.Value.{Value}
use codex_hooks.Daemon.Send.{
  send_failed, deliver, reserve, received, send, transport, record_delivery_evidence,
}
use codex_hooks.Protocol.Names.{DeliveryState}
use codex_hooks.Daemon.Dispatch.{
  ask_status, gate, dispatch_once, observed, expire, dispatch, is_expired,
}

module _ {E : Type 0} (port : Port E) (intent : Intent) (R : World E → World E → Type 0)
    (frame : IsFrame port intent R)
    (on_record : (evidence : Value)
      → Moves R (record_delivery_evidence port intent.intent_id DeliveryState.delivered evidence))
    (on_transport : (attempt_id : String) → Moves R (transport port intent attempt_id)) where
  its-preorder : IsPreorder R
  its-preorder = frame.preorder

  its-received :
      (event kind state attempt_id : String) (native : Value)
      → Moves R (received port event kind intent state attempt_id native)
  its-received = received-Moves port intent R frame on_record

  its-fail :
      (event kind code state message : String)
      → Moves R (fail_intent port event kind intent code state message)
  its-fail = fail_intent-Moves port intent R frame

  its-defer :
      (event kind : String) (o : Observation) → Moves R (Dispatch.defer port event kind intent o)
  its-defer = defer-Moves port intent R frame

  its-get : (key : String) → Moves R (get_intent key)
  its-get = frame.on_get

  its-status : (target : Target) → Moves R (ask_status port target)
  its-status = frame.on_status

  its-expire : (event kind : String) → Moves R (expire port event kind intent)
  its-expire = expire-Moves port intent R frame

  its-is_expired : Moves R (is_expired port intent)
  its-is_expired = is_expired-Moves port intent R frame

  its-failed :
      (event kind state attempt_id : String) (error : Fault)
      → Moves R (send_failed port event kind intent state attempt_id error)
  its-failed = send_failed-Moves port intent R frame

  its-reserve : (state attempt_id : String) → Moves R (reserve port intent state attempt_id)
  its-reserve = reserve-Moves port intent R frame

  its-transport : (attempt_id : String) → Moves R (transport port intent attempt_id)
  its-transport = on_transport

  ruleset its_rules = (
    moves_rules, its-preorder, its-received, its-fail, its-defer, its-get, its-status, its-expire,
    its-is_expired, its-failed, its-reserve, its-transport,
  )

  deliver-Moves :
      (event kind state attempt_id : String)
      → Moves R (deliver port event kind intent state attempt_id)
  unfolding deliver
  deliver-Moves event kind state attempt_id = search its_rules depth 8

  pub send-Moves :
      (event kind state attempt_id : String)
      → Moves R (send port event kind intent state attempt_id)
  unfolding send
  send-Moves event kind state attempt_id = search (its_rules, deliver-Moves) depth 8

  gate-Moves : (event kind : String) (o : Observation) → Moves R (gate port event kind intent o)
  unfolding gate
  gate-Moves event kind o = search (its_rules, send-Moves) depth 12

  observed-Moves :
      (event kind : String) (status : Outcome Value)
      → Moves R (observed port event kind intent status)
  unfolding observed
  observed-Moves event kind (ok status) = gate-Moves event kind _
  observed-Moves event kind (throws error) = its-fail event kind _ _ _

  dispatch_once-Moves : (event kind : String) → Moves R (dispatch_once port event kind intent)
  unfolding dispatch_once
  dispatch_once-Moves event kind = search (its_rules, observed-Moves) depth 12

  pub dispatch-Moves : (event kind : String) → Moves R (dispatch port event kind intent)
  unfolding dispatch
  dispatch-Moves event kind = search (its_rules, dispatch_once-Moves) depth 12
