-- ===== src/Daemon/EvidenceRules.antt =====
-- src/daemon.js: what evidence each delivery state needs, and when a repeated report is the same.
use codex_hooks.Base.{
  String, not, ◌||◌, Option, none, some, [], ◌∷◌, Outcome, ok, throws, ◌==◌, if◌then◌else◌, coded,
  concat,
}
use codex_hooks.Protocol.Value.{Value, str, get, truthy, is_object, is_text, or_value, join_text}
use codex_hooks.Protocol.Names.{DeliveryState, delivery_state_name}
use codex_hooks.Daemon.Record.{IntentRecord}
use codex_hooks.Daemon.Receipts.{valid_target_receipt, receipt_of, is_non_empty}
use codex_hooks.Daemon.Identity.{same_optional}

-- The test that each state of the evidence chain makes of its evidence, and the error's code.
unfoldable pub evidence_fault : DeliveryState → Value → String → Option String
evidence_fault DeliveryState.read evidence attempt_id =
    if not (is_non_empty (get evidence "cursor"))
    then some "read_evidence_requires_cursor"
    else if not (is_non_empty (get evidence "read_item_id"))
    then some "read_evidence_requires_item"
    else none
evidence_fault DeliveryState.delivered evidence attempt_id =
    if valid_target_receipt (receipt_of evidence) attempt_id
    then none
    else some "delivered_evidence_requires_target_receipt"
evidence_fault DeliveryState.executed evidence attempt_id =
    if is_non_empty (get evidence "execution_item_id")
    then none
    else some "executed_evidence_requires_execution_item"
evidence_fault DeliveryState.replied evidence attempt_id =
    if is_non_empty (get evidence "response_turn_id")
      || is_non_empty (get evidence "response_item_id")
    then none
    else some "replied_evidence_requires_response"
evidence_fault DeliveryState.consumed evidence attempt_id =
    if is_non_empty (get evidence "ack_id") then none else some "consumed_evidence_requires_ack"
evidence_fault _ evidence attempt_id = none

abbrev pub evidence_message : String → String
evidence_message code =
    if code == "read_evidence_requires_cursor"
    then "read evidence requires a cursor"
    else if code == "read_evidence_requires_item"
    then "read evidence requires a read_item_id"
    else if code == "delivered_evidence_requires_target_receipt"
    then "delivered evidence requires a matching target receipt"
    else if code == "executed_evidence_requires_execution_item"
    then "executed evidence requires an execution_item_id"
    else if code == "replied_evidence_requires_response"
    then "replied evidence requires a response turn or item"
    else "consumed evidence requires an ack_id"

-- `assertDeliveryEvidence`
unfoldable pub assert_delivery_evidence : IntentRecord → DeliveryState → Value → Outcome (Unit {0})
assert_delivery_evidence existing state evidence = elim (get existing.evidence "attempt_id") [
  | str expected ↦
      if not (is_text (get evidence "attempt_id") expected)
      then throws (
          coded "delivery_evidence_attempt_mismatch" (
            concat
              ("delivery evidence attempt_id does not match intent: " ∷ existing.intent_id ∷ [])))
      else elim (evidence_fault state evidence expected) [
        | none ↦ ok tt
        | some code ↦ throws (coded code (evidence_message code))
      ]
  | _ ↦ throws (
      coded "delivery_evidence_attempt_mismatch"
        (concat ("delivery evidence attempt_id does not match intent: " ∷ existing.intent_id ∷ [])))
]

-- `${value || ""}`
abbrev pub text_or_empty : Value → String
text_or_empty v = if truthy v then join_text v else ""

unfoldable pub receipt_identity : Value → String
receipt_identity receipt =
    if is_object receipt
    then text_or_empty (
        or_value (get receipt "clientId")
          (or_value (get receipt "clientUserMessageId") (get receipt "messageId")))
    else ""

-- `evidenceIdentity`; `none` is null. The last case prints the evidence as JSON.
unfoldable pub evidence_identity : (Value → String) → Value → DeliveryState → Option String
evidence_identity stringify evidence state =
    if not (is_object evidence)
    then none
    else some (elim state [
      | DeliveryState.delivered ↦ concat (
          text_or_empty (get evidence "attempt_id")
          ∷ ":"
          ∷ receipt_identity (receipt_of evidence)
          ∷ [])
      | DeliveryState.executed ↦ concat (
          text_or_empty (get evidence "attempt_id")
          ∷ ":"
          ∷ text_or_empty (get evidence "execution_item_id")
          ∷ [])
      | DeliveryState.replied ↦ concat (
          text_or_empty (get evidence "attempt_id")
          ∷ ":"
          ∷ text_or_empty
              (or_value (get evidence "response_turn_id") (get evidence "response_item_id"))
          ∷ [])
      | DeliveryState.read ↦ concat (
          text_or_empty (get evidence "attempt_id")
          ∷ ":"
          ∷ text_or_empty (get evidence "cursor")
          ∷ ":"
          ∷ text_or_empty (get evidence "read_item_id")
          ∷ [])
      | DeliveryState.consumed ↦ concat (
          text_or_empty (get evidence "attempt_id")
          ∷ ":"
          ∷ text_or_empty (get evidence "ack_id")
          ∷ [])
      | _ ↦ stringify evidence
    ])

unfoldable pub assert_same_evidence :
    (Value → String) → IntentRecord → DeliveryState → Value → Outcome (Unit {0})
assert_same_evidence stringify existing state evidence =
    if same_optional (evidence_identity stringify existing.evidence state)
      (evidence_identity stringify evidence state)
    then ok tt
    else throws (
        coded "duplicate_delivery_evidence_mismatch" (
          concat (
            "duplicate delivery evidence does not match existing "
            ∷ delivery_state_name state
            ∷ " evidence"
            ∷ [])))
