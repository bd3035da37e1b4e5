-- ===== src/Daemon/Receipts.antt =====
-- src/daemon.js: the pure tests on errors and receipts.
use codex_hooks.Base.{
  String, Bool, false, not, ◌&&◌, ◌||◌, none, some, [], ◌∷◌, Outcome, ok, throws, Fault, ◌==◌,
  if◌then◌else◌, coded, member, has_prefix, has_suffix, includes, is_blank, or_else,
}
use codex_hooks.Protocol.Value.{Value, str, get, is_record, is_text, is_true, or_value, null}

-- `error.code || default`
unfoldable pub code_or : String → Fault → String
code_or default e = elim e.code [ none ↦ default | some c ↦ if c == "" then default else c ]

-- `typeof error?.code === "string" ? error.code : ""`
abbrev pub code_text : Fault → String
code_text e = or_else e.code ""

unfoldable pub has_code : String → Fault → Bool
has_code c e = elim e.code [ none ↦ false | some d ↦ d == c ]

-- `mapSessionStatusError`; the table of the source is the first three tests.
unfoldable pub map_session_status_error : Fault → String
map_session_status_error e =
    let code = code_text e in
    if member code ("target_scope_not_found" ∷ "session_not_found" ∷ "invalid_request" ∷ [])
    then code
    else if member code ("native_transport_error" ∷ "transport_timeout" ∷ [])
    then "session_status_unavailable"
    else if code == "native_transport_error" || has_prefix "transport_" code
    then "session_status_unavailable"
    else if includes "invalid thread id" e.message
    then "session_not_found"
    else "unknown_session_state"

unfoldable pub is_uncertain_transport_error : Fault → Bool
is_uncertain_transport_error e =
    let code = code_text e in
    e.uncertain
    || code == "timeout"
    || code == "timed_out"
    || code == "transport_timeout"
    || code == "unknown_delivery"
    || has_suffix "_timeout" code

-- `value?.state || value?.nativeResult?.state || null`
unfoldable pub native_state : Value → Value
native_state v = or_value (get v "state") (or_value (get (get v "nativeResult") "state") null)

unfoldable pub native_receipt : Value → Value
native_receipt v = or_value (get v "target_receipt") (
    or_value (get v "targetReceipt") (
      or_value (get (get v "native_result") "targetReceipt")
        (or_value (get (get v "nativeResult") "targetReceipt") null)))

unfoldable pub is_accepted : Value → Bool
is_accepted v =
    is_true (get v "accepted")
    || is_text (get v "state") "accepted"
    || is_text (get v "state") "delivered"
    || is_text (get (get v "nativeResult") "state") "accepted"
    || is_text (get (get v "nativeResult") "state") "delivered"

-- `assertAcceptedReceipt`
unfoldable pub assert_accepted_receipt : Value → String → Outcome Value
assert_accepted_receipt v attempt_id =
    if is_accepted v
      && is_text (or_value (get v "attempt_id") (get (get v "nativeResult") "attempt_id"))
          attempt_id
    then ok v
    else throws (coded "invalid_send_receipt" "codexapp returned no accepted send receipt")

-- `isNonEmptyString`
abbrev pub is_non_empty : Value → Bool
is_non_empty (str s) = not (is_blank s)
is_non_empty _ = false

unfoldable pub valid_target_receipt : Value → String → Bool
valid_target_receipt receipt attempt_id =
    is_record receipt
    && (is_text (get receipt "clientId") attempt_id
        || is_text (get receipt "clientUserMessageId") attempt_id
        || is_text (get receipt "messageId") attempt_id)

abbrev pub receipt_of : Value → Value
receipt_of evidence =
    or_value (get evidence "target_receipt") (native_receipt (get evidence "native"))
