-- ===== src/Daemon/Frame.antt =====
-- The methods of the daemon that work on one intent keep every relation between worlds that its
-- primitive steps keep.
pub mod Dispatch
use codex_hooks.Base.{◌≡◌, Fault, String}
use codex_hooks.Base.Exec.Moves.{Moves, IsPreorder, moves_rules}
use codex_hooks.Protocol.Names.{DeliveryState}
use codex_hooks.Protocol.Normalize.{Intent, Observation, Target}
use codex_hooks.Protocol.Value.{Fields, Value}
use codex_hooks.Daemon.Record.{
  Delivery, Delivery, Delivery, Delivery, Delivery, Delivery, Delivery, Delivery, Delivery,
  Delivery, Delivery, Delivery, Delivery, Delivery, Delivery, Delivery, Delivery, Delivery,
  Delivery, Delivery, Delivery, Delivery, Delivery, Delivery, Decision, Delivery, IntentRecord,
}
use codex_hooks.Daemon.World.{
  Port, World, fail_intent, now, remember_intent, transition, get_intent,
}
use codex_hooks.Daemon.Send.{
  answer, move_on, stop_output, confirm, advance_evidence, record_delivery_evidence, received,
  reserve, send_failed, settle,
}
use codex_hooks.Daemon.Dispatch.{defer, expire, is_expired, ask_status}

-- The steps that any method may take, and those on the given intent.
pub record IsFrame {E : Type 0} (port : Port E) (intent : Intent) (R : World E → World E → Type 0)
    : Type 0 where
  pub preorder : IsPreorder R
  pub on_transition :
      (state : DeliveryState) (evidence : Value) → Moves R (transition intent state evidence)
  pub on_remember :
      (d : Delivery) (decision : Decision) → Moves R (remember_intent intent d decision)
  pub on_now : Moves R (now port)
  pub on_get : (key : String) → Moves R (get_intent key)
  pub on_status : (target : Target) → Moves R (ask_status port target)

module _ {E : Type 0} (port : Port E) (intent : Intent) (R : World E → World E → Type 0)
    (frame : IsFrame port intent R) where
  frame-preorder : IsPreorder R
  frame-preorder = frame.preorder

  frame-transition :
      (state : DeliveryState) (evidence : Value) → Moves R (transition intent state evidence)
  frame-transition = frame.on_transition

  frame-remember :
      (d : Delivery) (decision : Decision) → Moves R (remember_intent intent d decision)
  frame-remember = frame.on_remember

  frame-now : Moves R (now port)
  frame-now = frame.on_now

  frame-get : (key : String) → Moves R (get_intent key)
  frame-get = frame.on_get

  frame-status : (target : Target) → Moves R (ask_status port target)
  frame-status = frame.on_status

  ruleset frame_rules = (
    moves_rules, frame-preorder, frame-transition, frame-remember, frame-now, frame-get,
    frame-status,
  )

  pub fail_intent-Moves :
      (event kind code state message : String)
      → Moves R (fail_intent port event kind intent code state message)
  unfolding fail_intent
  fail_intent-Moves event kind code state message = search frame_rules depth 12

  pub settle-Moves :
      (event kind : String) (reached : DeliveryState) (decision : Decision)
      (state attempt_id code message : String)
      → Moves R (settle port event kind intent reached decision state attempt_id code message)
  unfolding settle
  settle-Moves event kind reached decision state attempt_id code message =
      search frame_rules depth 12

  pub send_failed-Moves :
      (event kind state attempt_id : String) (error : Fault)
      → Moves R (send_failed port event kind intent state attempt_id error)
  unfolding send_failed
  send_failed-Moves event kind state attempt_id error =
      search (frame_rules, fail_intent-Moves, settle-Moves) depth 12

  pub expire-Moves : (event kind : String) → Moves R (expire port event kind intent)
  unfolding expire
  expire-Moves event kind = search frame_rules depth 12

  pub is_expired-Moves : Moves R (is_expired port intent)
  unfolding is_expired
  is_expired-Moves = search frame_rules depth 12

  pub defer-Moves :
      (event kind : String) (o : Observation) → Moves R (defer port event kind intent o)
  unfolding defer
  defer-Moves event kind o = search frame_rules depth 12

  pub reserve-Moves : (state attempt_id : String) → Moves R (reserve port intent state attempt_id)
  unfolding reserve
  reserve-Moves state attempt_id = search frame_rules depth 12

  pub advance_evidence-Moves :
      (existing : IntentRecord) (state : DeliveryState) (evidence : Fields)
      → existing.intent ≡ intent
      → Moves R (advance_evidence port existing state evidence)
  unfolding advance_evidence move_on
  advance_evidence-Moves existing state evidence same = rw same (search frame_rules depth 12)

  -- What `send` does with the evidence of its own native answer.
  module _
      (on_record : (evidence : Value)
        → Moves R
            (record_delivery_evidence port intent.intent_id DeliveryState.delivered evidence)) where
    confirm-Moves :
        (attempt_id : String) (native : Value) (accepted : Delivery)
        → Moves R (confirm port intent attempt_id native accepted)
    unfolding confirm
    confirm-Moves attempt_id native accepted = search (frame_rules, on_record) depth 12

    stop_output-Moves : (kind : String) → Moves R (stop_output port kind)
    unfolding stop_output
    stop_output-Moves kind = search frame_rules depth 12

    pub received-Moves :
        (event kind state attempt_id : String) (native : Value)
        → Moves R (received port event kind intent state attempt_id native)
    unfolding received answer
    received-Moves event kind state attempt_id native =
        search (frame_rules, confirm-Moves, stop_output-Moves) depth 14
