-- ===== src/Control/Registration.antt =====
-- src/control.js: the fields of a subagent's registration, of the request that creates it and of
-- its end.
use codex_hooks.Base.{
  String, Bool, List, [], ◌∷◌, ◌++◌, ◌&&◌, ◌||◌, not, concat, coded, if◌then◌else◌, true, or_else,
  Outcome, ok, throws, ◌>>=◌,
}
use codex_hooks.Protocol.Value.{
  Value, get, str, bool, is_nullish, is_true, is_text, truthy, text?, join_text,
}
use codex_hooks.Protocol.Normalize.{TargetScope, assert_non_empty}
use codex_hooks.Daemon.Record.{object}
use codex_hooks.Timer.Requests.{scope_value, given}

-- `...(request.name == null ? {} : { name: assertNonEmpty(request.name, "name") })`, for each name
unfoldable pub texts_given : Value → List String → Outcome (List (String × Value))
texts_given request [] = ok []
texts_given request (name ∷ more) =
    if is_nullish (get request name) then texts_given request more else do
      text ← assert_non_empty (get request name) name
      rest ← texts_given request more
      ok ((name, str text) ∷ rest)

-- The optional fields of `registerSubagent`.
abbrev pub registration_names : List String
registration_names =
    "profile" ∷ "model" ∷ "effort" ∷ "owner_session_id" ∷ "schedule_id" ∷ "occurrence_id" ∷ "kind"
    ∷ "review_id" ∷ "source_session_id" ∷ "source_turn_id" ∷ []

-- `request.prompt_digest || digestPrompt(assertNonEmpty(request.prompt, "prompt"))`
unfoldable pub digest_of : (String → String) → Value → Outcome Value
digest_of digest request =
    if truthy (get request "prompt_digest")
    then ok (get request "prompt_digest")
    else do prompt ← assert_non_empty (get request "prompt") "prompt"; ok (str (digest prompt))

-- The record that `registerSubagent` stores.
abbrev pub subagent_record :
    String → String → TargetScope → Value → Value → Value → Value → List (String × Value) → Value
subagent_record thread_id turn_id target digest created seen request texts = object (
    ("thread_id", str thread_id)
    ∷ ("turn_id", str turn_id)
    ∷ ("target", scope_value target)
    ∷ ("prompt_digest", digest)
    ∷ ("state", str "active")
    ∷ ("created_at", created)
    ∷ ("last_seen_at", seen)
    ∷ ("ephemeral", bool (is_true (get request "ephemeral")))
    ∷ (texts ++ given "create_receipt" (get request "create_receipt") []))

-- `request.ephemeral !== false`
abbrev pub is_not_false : Value → Bool
is_not_false (Value.bool b) = b
is_not_false _ = true

abbrev pub create_request : TargetScope → String → String → List (String × Value) → Value → Value
create_request target prompt attempt_id texts request = object (
    ("target", scope_value target)
    ∷ ("prompt", str prompt)
    ∷ ("attempt_id", str attempt_id)
    ∷ (texts ++ ("ephemeral", bool (is_not_false (get request "ephemeral"))) ∷ []))

-- What `createSubagent` registers.
abbrev pub created_request : TargetScope → String → Value → Value → Value
created_request target prompt receipt request = object (
    ("thread_id", get receipt "thread_id")
    ∷ ("turn_id", get receipt "turn_id")
    ∷ ("target", scope_value target)
    ∷ ("prompt", str prompt)
    ∷ ("ephemeral", bool (is_not_false (get request "ephemeral")))
    ∷ given "model" (get request "model") (
        given "effort" (get request "effort") (
          given "owner_session_id" (get request "owner_session_id")
            (("create_receipt", receipt) ∷ []))))

-- `["idle", "waiting_for_input", "stopped"].includes(nativeState)`
abbrev pub is_at_rest : Value → Bool
is_at_rest state =
    is_text state "idle" || is_text state "waiting_for_input" || is_text state "stopped"

-- `["stopped", "released"].includes(subagent.state)`
abbrev pub is_ended : Value → Bool
is_ended subagent =
    is_text (get subagent "state") "stopped" || is_text (get subagent "state") "released"

-- `subagent.ephemeral ? "released" : "stopped"`
abbrev pub end_state : Value → String
end_state subagent = if truthy (get subagent "ephemeral") then "released" else "stopped"

-- `nativeState ?? "missing"`, in the error's text
abbrev pub state_text : Value → String
state_text state = if is_nullish state then "missing" else join_text state

-- `status.active_turn_id != null && status.active_turn_id !== subagent.turn_id`
unfoldable pub is_other_turn : Value → Value → Bool
is_other_turn active turn_id =
    not (is_nullish active) && not (is_text active (or_else (text? turn_id) ""))

-- The checks on a session that is not at rest.
unfoldable pub assert_registered_turn : Value → Value → Outcome (Unit {0})
assert_registered_turn status subagent =
    if not (is_text (get status "state") "working")
    then throws (
        coded "subagent_state_unresolved" (
          concat
            ("subagent stop cannot resolve native state: " ∷ state_text (get status "state") ∷ [])))
    else if is_other_turn (get status "active_turn_id") (get subagent "turn_id")
    then throws
        (coded "subagent_active_turn_mismatch" "subagent stop requires the registered live turn")
    else ok tt
