-- ===== src/Daemon/Evidence.antt =====
-- Reconciliation moves a record one step along the evidence chain, or changes nothing.
use codex_hooks.Base.{
  ap, sym, Option, subst, Outcome, is_blank, Bool-cases, inr, inl, Fault, String, ◌≡◌, refl, ok,
  throws, none, some, Option-cases, Outcome-cases, true, false,
}
use codex_hooks.Base.Exec.{continue}
use codex_hooks.Daemon.Record.{Shown, IntentRecord, evidence_next}
use codex_hooks.Daemon.Send.{
  record_delivery_evidence, move_on, advance_evidence, is_next, same_state,
}
use codex_hooks.Protocol.Names.{DeliveryState, delivery_state_name}
use codex_hooks.Daemon.World.{EvidenceRequest, primitives, World, Port}
use codex_hooks.Base.Dict.{lookup}
use codex_hooks.Protocol.Value.{Value, obj, Fields}
use codex_hooks.Daemon.Settled.{move_on-IsStored, IsStored}
use codex_hooks.Daemon.EvidenceRules.{assert_delivery_evidence}
use codex_hooks.Daemon.Recovery.{
  fetch_evidence, evidence_request, reconcile_record, reconcile_delivery_evidence,
}

next-is_next :
    (s n : DeliveryState)
    → evidence_next s ≡ some n
    → (same_state s n ≡ false) × (is_next s n ≡ true)
unfolding evidence_next same_state is_next delivery_state_name
next-is_next DeliveryState.unknown_delivery n e =
    let same : DeliveryState.delivered ≡ n = cc in rw (← same) (refl, refl)
next-is_next DeliveryState.accepted n e =
    let same : DeliveryState.delivered ≡ n = cc in rw (← same) (refl, refl)
next-is_next DeliveryState.delivered n e =
    let same : DeliveryState.executed ≡ n = cc in rw (← same) (refl, refl)
next-is_next DeliveryState.executed n e =
    let same : DeliveryState.replied ≡ n = cc in rw (← same) (refl, refl)
next-is_next DeliveryState.replied n e =
    let same : DeliveryState.read ≡ n = cc in rw (← same) (refl, refl)
next-is_next DeliveryState.read n e =
    let same : DeliveryState.consumed ≡ n = cc in rw (← same) (refl, refl)
next-is_next _ n e = cc

module _ {E : Type 0} (port : Port E) where
  -- What a reconciliation that returned has done.
  pub record HasMoved (intent_id : String) (w w' : World E) : Type 0 where
    pub existing : IntentRecord
    pub next : DeliveryState
    pub was : lookup intent_id w.store.intents ≡ some existing
    pub follows : evidence_next existing.state ≡ some next
    pub now_is : IsStored existing.intent next existing.decision w'

  move_on-store :
      (existing : IntentRecord) (state : DeliveryState) (evidence : Fields) (w : World E)
      (fault : Fault)
      → (move_on port existing state evidence w).0 ≡ throws fault
      → (move_on port existing state evidence w).1 ≡ w
  unfolding move_on primitives
  move_on-store existing state evidence w fault failed =
      elim (Outcome-cases (assert_delivery_evidence existing state (obj evidence))) [
        | inl (passed, e) ↦ let clash = rw e at failed in cc
        | inr (error, e) ↦ rw e refl
      ]

  advance_evidence-next :
      (existing : IntentRecord) (next : DeliveryState) (evidence : Fields) (w : World E)
      → evidence_next existing.state ≡ some next
      → advance_evidence port existing next evidence w ≡ move_on port existing next evidence w
  unfolding advance_evidence
  advance_evidence-next existing next evidence w e =
      let (other, follows) = next-is_next existing.state next e in rw (other, follows) refl

  -- `record_delivery_evidence` of the state that follows, for a record that is stored.
  module _ (intent_id : String) (existing : IntentRecord) (next : DeliveryState)
      (follows : evidence_next existing.state ≡ some next) (w : World E)
      (found : lookup intent_id w.store.intents ≡ some existing) where
    record-IsStored :
        (evidence : Value) (shown : Shown)
        → (record_delivery_evidence port intent_id next evidence w).0 ≡ ok shown
        → IsStored existing.intent next existing.decision
            (record_delivery_evidence port intent_id next evidence w).1
    unfolding record_delivery_evidence primitives
    record-IsStored (obj evidence) shown done = elim (Bool-cases (is_blank intent_id)) [
      | inl b ↦ let clash = rw b at done in cc
      | inr b ↦
          let step = advance_evidence-next existing next evidence w follows in
          rw (b, found, step)
            (move_on-IsStored port existing.intent existing next evidence w shown refl
              (rw (b, found, step) at done))
    ]
    record-IsStored evidence shown done = elim (Bool-cases (is_blank intent_id)) [
      | inl b ↦ let clash = rw b at done in cc
      | inr b ↦ let clash = rw b at done in cc
    ]

    record-store :
        (evidence : Value) (fault : Fault)
        → (record_delivery_evidence port intent_id next evidence w).0 ≡ throws fault
        → (record_delivery_evidence port intent_id next evidence w).1 ≡ w
    unfolding record_delivery_evidence primitives
    record-store (obj evidence) fault failed = elim (Bool-cases (is_blank intent_id)) [
      | inl b ↦ rw b refl
      | inr b ↦
          let step = advance_evidence-next existing next evidence w follows in
          rw (b, found, step)
            (move_on-store existing next evidence w fault (rw (b, found, step) at failed))
    ]
    record-store evidence fault failed = elim (Bool-cases (is_blank intent_id)) [
      | inl b ↦ rw b refl
      | inr b ↦ rw b refl
    ]

  -- A reconciliation that returns has moved the record; one that throws has kept the store.
  abbrev pub Reconciles : String → World E → Outcome Shown → World E → Type 0
  Reconciles intent_id w (ok shown) w' = HasMoved intent_id w w'
  Reconciles intent_id w (throws fault) w' = w'.store ≡ w.store

  record-Reconciles :
      (intent_id : String) (existing : IntentRecord) (next : DeliveryState) (evidence : Value)
      (w : World E)
      → lookup intent_id w.store.intents ≡ some existing
      → evidence_next existing.state ≡ some next
      → Reconciles intent_id w
          (record_delivery_evidence port intent_id next evidence w).0
          (record_delivery_evidence port intent_id next evidence w).1
  record-Reconciles intent_id existing next evidence w found follows =
      elim (Outcome-cases (record_delivery_evidence port intent_id next evidence w).0) [
        | inl (shown, e) ↦
            subst (λ o. Reconciles intent_id w o after) (sym e)
              (record {
                existing = existing;
                next = next;
                was = found;
                follows = follows;
                now_is = record-IsStored intent_id existing next follows w found evidence shown e;
              })
        | inr (fault, e) ↦
            subst (λ o. Reconciles intent_id w o after) (sym e)
              (ap (λ (v : World E). v.store)
                (record-store intent_id existing next follows w found evidence fault e))
      ]
    where
      after : World E
      after = (record_delivery_evidence port intent_id next evidence w).1

  Reconciles-outside :
      (intent_id : String) (w w' : World E) (e : E) (o : Outcome Shown)
      → Reconciles intent_id (record w { outside = e }) o w'
      → Reconciles intent_id w o w'
  Reconciles-outside intent_id w w' e (ok shown) h = record {
    existing = h.existing;
    next = h.next;
    was = h.was;
    follows = h.follows;
    now_is = h.now_is;
  }
  Reconciles-outside intent_id w w' e (throws fault) h = h

  fetched-Reconciles :
      (intent_id : String) (existing : IntentRecord) (next : DeliveryState) (answer : Outcome Value)
      (e : E) (w : World E)
      → lookup intent_id w.store.intents ≡ some existing
      → evidence_next existing.state ≡ some next
      → Reconciles intent_id w
          (continue
            (record_delivery_evidence port intent_id next)
            answer
            (record w { outside = e })).0
          (continue
            (record_delivery_evidence port intent_id next)
            answer
            (record w { outside = e })).1
  fetched-Reconciles intent_id existing next (ok evidence) e w found follows =
      Reconciles-outside intent_id w _ e
        (record_delivery_evidence port intent_id next evidence (record w { outside = e })).0
        (record-Reconciles intent_id existing next evidence (record w { outside = e }) found
          follows)
  fetched-Reconciles intent_id existing next (throws fault) e w found follows = refl

  fetch_evidence-Reconciles :
      (intent_id : String) (existing : IntentRecord) (next : DeliveryState)
      (capability : Option (EvidenceRequest → E → Outcome Value × E)) (w : World E)
      → lookup intent_id w.store.intents ≡ some existing
      → evidence_next existing.state ≡ some next
      → Reconciles intent_id w
          (fetch_evidence port intent_id existing next capability w).0
          (fetch_evidence port intent_id existing next capability w).1
  unfolding fetch_evidence primitives
  fetch_evidence-Reconciles intent_id existing next none w found follows = refl
  fetch_evidence-Reconciles intent_id existing next (some evidence_of) w found follows =
      fetched-Reconciles intent_id existing next
        (evidence_of (evidence_request existing) w.outside).0
        (evidence_of (evidence_request existing) w.outside).1 w found follows

  -- A reconciliation that returns has moved the record exactly one step along the evidence chain,
  -- with its intent and its decision kept; one that throws has changed nothing in the store.
  pub reconcile-Reconciles :
      (intent_id : String) (w : World E)
      → Reconciles intent_id w
          (reconcile_delivery_evidence port intent_id w).0
          (reconcile_delivery_evidence port intent_id w).1
  unfolding reconcile_delivery_evidence reconcile_record primitives
  reconcile-Reconciles intent_id w = elim (Option-cases (lookup intent_id w.store.intents)) [
    | inl e ↦ rw e refl
    | inr (existing, e) ↦ rw e (elim (Option-cases (evidence_next existing.state)) [
      | inl f ↦ rw f refl
      | inr (next, f) ↦
          rw f (fetch_evidence-Reconciles intent_id existing next port.delivery_evidence w e f)
    ])
  ]
