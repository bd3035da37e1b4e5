-- ===== src/Protocol/Normalize.antt =====
-- src/protocol.js: `assertNonEmpty`, the normalisers of targets, observations and intents.
pub mod Valid
use codex_hooks.Base.{
  ℕ, String, Bool, true, false, ◌&&◌, ◌||◌, Option, none, some, List, [], ◌∷◌, ◌==◌, is_blank,
  is_some, if◌then◌else◌, concat, not, Outcome, ok, throws, fault, ◌>>=◌, ◌>>◌, require,
}
use codex_hooks.Protocol.Value.{
  Value, null, str, get, truthy, is_nullish, is_object, is_true, or_value, or_given, join_text,
}
use codex_hooks.Protocol.Names.{
  SessionState, session_states, session_state_name, SendMode, send_modes, send_mode_name,
  MessageSource, message_sources, source_name, BusyPolicy, busy_policies, busy_policy_name,
  SendOperation, send_operations, operation_name, find_named,
}

unfoldable pub assert_non_empty : Value → String → Outcome String
assert_non_empty (str s) name =
    if is_blank s then throws (fault (concat (name ∷ " must be a non-empty string" ∷ []))) else ok s
assert_non_empty _ name = throws (fault (concat (name ∷ " must be a non-empty string" ∷ [])))

-- `value == null ? null : assertNonEmpty(value, name)`
unfoldable pub optional_non_empty : Value → String → Outcome (Option String)
unfolding assert_non_empty
optional_non_empty v name =
    if is_nullish v then ok none else do ok (some (← assert_non_empty v name))

pub record Target : Type 0 where
  pub namespace : String
  pub appserver_id : String
  pub session_id : String
  pub thread_id : String
  pub scope_id : Option String

pub record TargetScope : Type 0 where
  pub namespace : String
  pub appserver_id : String
  pub scope_id : Option String

unfoldable pub normalize_target : Value → Outcome Target
unfolding assert_non_empty optional_non_empty get
normalize_target v = do
  require (is_object v) (fault "target is required")
  namespace ← assert_non_empty (get v "namespace") "target.namespace"
  appserver_id ← assert_non_empty (get v "appserver_id") "target.appserver_id"
  session_id ← assert_non_empty (get v "session_id") "target.session_id"
  thread_id ← assert_non_empty (get v "thread_id") "target.thread_id"
  scope_id ← optional_non_empty (get v "scope_id") "target.scope_id"
  ok (record {
    namespace = namespace;
    appserver_id = appserver_id;
    session_id = session_id;
    thread_id = thread_id;
    scope_id = scope_id;
  })

unfoldable pub normalize_target_scope : Value → Outcome TargetScope
unfolding assert_non_empty optional_non_empty get
normalize_target_scope v = do
  require (is_object v) (fault "target scope is required")
  namespace ← assert_non_empty (get v "namespace") "target.namespace"
  appserver_id ← assert_non_empty (get v "appserver_id") "target.appserver_id"
  scope_id ← optional_non_empty (get v "scope_id") "target.scope_id"
  ok (record { namespace = namespace; appserver_id = appserver_id; scope_id = scope_id })

pub record Observation : Type 0 where
  pub state : SessionState
  pub input_active : Bool
  pub active_turn_id : Value

-- `typeof value === "string" ? value : value?.state || value?.status?.type`
unfoldable pub observed_state : Value → Value
unfolding or_value get
observed_state (str s) = str s
observed_state v = or_value (get v "state") (get (get v "status") "type")

-- The member of `SESSION_STATES` that a value spells.
unfoldable pub session_state? : Value → Option SessionState
unfolding find_named session_state_name
session_state? (str s) = find_named session_state_name session_states s
session_state? _ = none

unfoldable pub normalize_session_observation : Value → Observation
unfolding observed_state session_state? get
normalize_session_observation v = elim (session_state? (observed_state v)) [
  | none ↦ record { state = SessionState.unknown; input_active = false; active_turn_id = null }
  | some state ↦ record {
    state = state;
    input_active =
        is_object v
        && (is_true (get v "input_active") || is_true (get (get v "status") "input_active"));
    active_turn_id =
        if is_object v
        then or_given (get v "active_turn_id")
            (or_given (get (get v "status") "active_turn_id") null)
        else null;
  }
]

unfoldable pub normalize_session_state : Value → SessionState
unfolding normalize_session_observation
normalize_session_state v = (normalize_session_observation v).state

-- `LIST.includes(text)`, or the error that names the text.
unfoldable pub member_of {ℓ} : {A : Type ℓ} → (A → String) → List A → String → String → Outcome A
unfolding find_named
member_of name all_members what text = elim (find_named name all_members text) [
  | none ↦ throws (fault (concat ("unsupported " ∷ what ∷ ": " ∷ text ∷ [])))
  | some a ↦ ok a
]

-- `value || DEFAULT`, then the test of membership. A value that is no string is in no list.
unfoldable pub default_member {ℓ} :
    {A : Type ℓ} → (A → String) → List A → String → A → Value → Outcome A
unfolding member_of truthy join_text
default_member name all_members what default (str s) =
    if s == "" then ok default else member_of name all_members what s
default_member name all_members what default v =
    if truthy v
    then throws (fault (concat ("unsupported " ∷ what ∷ ": " ∷ join_text v ∷ [])))
    else ok default

pub record Intent : Type 0 where
  pub intent_id : String
  pub source : MessageSource
  pub target : Target
  pub body : String
  pub send_mode : SendMode
  pub busy_policy : BusyPolicy
  pub operation : SendOperation
  pub turn_id : Option String
  pub event_key : String
  pub expires_at : Option String

-- `[STEER, INTERRUPT].includes(operation)`
abbrev pub needs_turn : SendOperation → Bool
needs_turn SendOperation.queue = false
needs_turn SendOperation.steer = true
needs_turn SendOperation.interrupt = true

-- `expiresAt && Number.isNaN(Date.parse(expiresAt))`, for the given `Date.parse`
abbrev pub bad_expiry : (String → Option ℕ) → Option String → Bool
bad_expiry parse_date none = false
bad_expiry parse_date (some s) = not (is_some (parse_date s))

unfoldable pub normalize_intent : (String → Option ℕ) → Value → Outcome Intent
unfolding assert_non_empty optional_non_empty member_of default_member normalize_target get
    operation_name send_mode_name source_name busy_policy_name
normalize_intent parse_date v = do
  require (is_object v) (fault "message intent is required")
  mode_text ← assert_non_empty (get v "send_mode") "send_mode"
  mode ← member_of send_mode_name send_modes "send mode" mode_text
  source_text ← assert_non_empty (get v "source") "source"
  source ← member_of source_name message_sources "message source" source_text
  busy_policy ←
      default_member busy_policy_name busy_policies "busy policy" BusyPolicy.defer
        (get v "busy_policy")
  operation ←
      default_member operation_name send_operations "send operation" SendOperation.queue
        (get v "operation")
  turn_id ← optional_non_empty (get v "turn_id") "turn_id"
  require (not (needs_turn operation && not (is_some turn_id)))
      (fault (concat (operation_name operation ∷ " operation requires turn_id" ∷ [])))
  expires_at ← optional_non_empty (get v "expires_at") "expires_at"
  require (not (bad_expiry parse_date expires_at)) (fault "expires_at must be an ISO timestamp")
  intent_id ← assert_non_empty (get v "intent_id") "intent_id"
  target ← normalize_target (get v "target")
  body ← assert_non_empty (get v "body") "body"
  event_key ← assert_non_empty (get v "event_key") "event_key"
  ok (record {
    intent_id = intent_id;
    source = source;
    target = target;
    body = body;
    send_mode = mode;
    busy_policy = busy_policy;
    operation = operation;
    turn_id = turn_id;
    event_key = event_key;
    expires_at = expires_at;
  })
