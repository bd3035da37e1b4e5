-- ===== src/Daemon/Recovery.antt =====
-- src/daemon.js: `recoverOutbox`, `reconcileDeliveryEvidence` and `reconcileNextDelivery`.
use codex_hooks.Base.{
  is_some, String, Bool, Option, none, some, List, [], ◌∷◌, Outcome, ok, throws, ◌++◌,
  if◌then◌else◌, concat, Fault, coded, keep, member, or_else,
}
use codex_hooks.Base.Exec.{on_outcome, Exec, pure, raise, on_option, ◌>>=◌, ◌>>◌}
use codex_hooks.Protocol.Value.{Value, str, get, or_value, join_text}
use codex_hooks.Protocol.Names.{DeliveryState, delivery_state_name}
use codex_hooks.Daemon.Record.{
  Decision, Delivery, IntentRecord, Shown, object, is_unresolved, evidence_next,
}
use codex_hooks.Daemon.World.{
  Port, World, EvidenceRequest, ask, get_intent, list_intents, now, transition, remember_intent,
}
use codex_hooks.Daemon.Send.{record_delivery_evidence}

-- `DELIVERY_EVIDENCE_NEXT[record.state]`, as a test
unfoldable pub awaits_evidence : IntentRecord → Bool
awaits_evidence r = is_some (evidence_next r.state)

-- `String(record.evidence?.at || "")`
unfoldable pub recorded_at : IntentRecord → String
recorded_at r = join_text (or_value (get r.evidence "at") (str ""))

-- `sort`, which is stable, by the time of the evidence
unfoldable pub insert_by_time :
    (String → String → Bool) → IntentRecord → List IntentRecord → List IntentRecord
insert_by_time text_le r [] = r ∷ []
insert_by_time text_le r (x ∷ xs) =
    if text_le (recorded_at r) (recorded_at x) then r ∷ x ∷ xs else x ∷ insert_by_time text_le r xs

unfoldable pub sort_by_time : (String → String → Bool) → List IntentRecord → List IntentRecord
sort_by_time text_le [] = []
sort_by_time text_le (r ∷ rs) = insert_by_time text_le r (sort_by_time text_le rs)

-- `DELIVERY_RECONCILE_SKIP_CODES.has(error?.code)`
unfoldable pub is_skipped : Fault → Bool
is_skipped e = member (or_else e.code "") ("message_not_found" ∷ "delivery_unresolved" ∷ [])

-- An entry of the list `unresolved`.
pub record Unresolved : Type 0 where
  pub intent_id : String
  pub state : DeliveryState
  pub code : Option String
  pub message : String

abbrev pub unresolved_entry : IntentRecord → Fault → Unresolved
unresolved_entry r e = record {
  intent_id = r.intent_id;
  state = r.state;
  code = e.code;
  message = e.message;
}

-- What `reconcileNextDelivery` returns.
pub data Reconciled : Type 0 where
  nothing_due : Reconciled
  moved : Shown → Reconciled
  unresolved : List Unresolved → Reconciled

-- What the port is asked about a record.
abbrev pub evidence_request : IntentRecord → EvidenceRequest
evidence_request existing = record {
  target = existing.intent.target;
  attempt_id = get existing.evidence "attempt_id";
  after_state = existing.state;
}

module _ {E : Type 0} (port : Port E) where
  -- An intent whose send a crash interrupted: whether it was delivered is not known.
  unfoldable pub recover_one : IntentRecord → Exec (World E) Delivery
  recover_one r = do
    at ← now port
    d ← transition r.intent DeliveryState.unknown_delivery (
        object (
          ("code", str "restart_recovery_requires_reconcile")
          ∷ ("previous_state", str (delivery_state_name r.state))
          ∷ ("attempt_id", get r.evidence "attempt_id")
          ∷ ("at", str at)
          ∷ []))
    remember_intent r.intent d Decision.unknown_delivery
    pure d

  unfoldable pub recover_all : List IntentRecord → Exec (World E) (List Delivery)
  recover_all [] = pure []
  recover_all (r ∷ rs) = do d ← recover_one r; ds ← recover_all rs; pure (d ∷ ds)

  -- `this.recoverOutbox()`
  unfoldable pub recover_outbox : Exec (World E) (List Delivery)
  recover_outbox = do
    pending ← list_intents
    recover_all (keep (λ (r : IntentRecord). is_unresolved r.state) pending)

  -- The end of `reconcileDeliveryEvidence`, for a port with or without the capability.
  unfoldable pub fetch_evidence :
      String
      → IntentRecord
      → DeliveryState
      → Option (EvidenceRequest → E → Outcome Value × E)
      → Exec (World E) Shown
  fetch_evidence intent_id existing next none = raise (
      coded "delivery_evidence_unavailable"
        "codexapp port does not provide authoritative delivery evidence")
  fetch_evidence intent_id existing next (some evidence_of) = do
    evidence ← ask (evidence_of (evidence_request existing))
    record_delivery_evidence port intent_id next evidence

  -- `reconcileDeliveryEvidence`, for the record that was found
  unfoldable pub reconcile_record : String → IntentRecord → Exec (World E) Shown
  reconcile_record intent_id existing =
      on_option (evidence_next existing.state)
        (raise (
          coded "intent_not_reconcilable"
            (concat ("intent is not awaiting delivery reconciliation: " ∷ intent_id ∷ []))))
        (λ next. fetch_evidence intent_id existing next port.delivery_evidence)

  -- `this.reconcileDeliveryEvidence(intentId)`
  unfoldable pub reconcile_delivery_evidence : String → Exec (World E) Shown
  reconcile_delivery_evidence intent_id = do
    found ← get_intent intent_id
    on_option found
        (raise (coded "intent_not_found" (concat ("intent not found: " ∷ intent_id ∷ []))))
        (reconcile_record intent_id)

  -- The loop of `reconcileNextDelivery`: it returns at the first candidate that moves, goes on
  -- after a fault that only says "not yet", and throws any other.
  unfoldable pub reconcile_first : List IntentRecord → List Unresolved → Exec (World E) Reconciled
  reconcile_first [] seen = pure (unresolved seen)
  reconcile_first (r ∷ rs) seen =
      let later = λ (e : Fault). reconcile_first rs (seen ++ unresolved_entry r e ∷ []) in
      on_outcome (reconcile_delivery_evidence r.intent_id) (λ outcome. elim outcome [
        | ok shown ↦ pure (moved shown)
        | throws e ↦ if is_skipped e then later e else raise e
      ])

  unfoldable pub reconcile_candidates : List IntentRecord → Exec (World E) Reconciled
  reconcile_candidates [] = pure nothing_due
  reconcile_candidates (r ∷ rs) = reconcile_first (r ∷ rs) []

  -- `this.reconcileNextDelivery()`
  unfoldable pub reconcile_next_delivery : Exec (World E) Reconciled
  reconcile_next_delivery = do
    pending ← list_intents
    reconcile_candidates (sort_by_time port.text_le (keep awaits_evidence pending))
