-- ===== src/Protocol/Normalize/Valid.antt =====
-- What holds of every intent that `normalizeMessageIntent` lets through.
use codex_hooks.Base.{
  [], ◌∷◌, concat, fault, Gives-require, Gives-ok, Gives-bind, Gives-any, Gives, Gives-eq, ℕ,
  String, Bool, true, false, not, ◌≡◌, Option, ok, ◌&&◌, arith, is_some, is_blank, inl, inr,
  Bool-cases, require,
}
use codex_hooks.Protocol.Value.{get, is_object, Value, str}
use codex_hooks.Protocol.Names.{
  send_operations, operation_name, BusyPolicy, busy_policies, busy_policy_name, message_sources,
  source_name, send_modes, send_mode_name, SendOperation,
}
use codex_hooks.Protocol.Normalize.{
  default_member, member_of, Intent, Target, normalize_intent, normalize_target, assert_non_empty,
  optional_non_empty, needs_turn, bad_expiry,
}

pub record IsValidTarget (t : Target) : Type 0 where
  pub has_namespace : is_blank t.namespace ≡ false
  pub has_appserver : is_blank t.appserver_id ≡ false
  pub has_session : is_blank t.session_id ≡ false
  pub has_thread : is_blank t.thread_id ≡ false

pub record IsValidIntent (parse_date : String → Option ℕ) (i : Intent) : Type 0 where
  pub has_id : is_blank i.intent_id ≡ false
  pub has_body : is_blank i.body ≡ false
  pub has_event_key : is_blank i.event_key ≡ false
  pub has_target : IsValidTarget i.target
  pub has_turn : needs_turn i.operation ≡ true → is_some i.turn_id ≡ true
  pub has_expiry : bad_expiry parse_date i.expires_at ≡ false

not-true : (b : Bool) → not b ≡ true → b ≡ false
not-true b e = ground arith

abbrev NotBlank : String → Type 0
NotBlank s = is_blank s ≡ false

assert_non_empty-Gives : (v : Value) (label : String) → Gives NotBlank (assert_non_empty v label)
unfolding assert_non_empty
assert_non_empty-Gives (str s) label = elim (Bool-cases (is_blank s)) [
  | inl b ↦ rw b (record { holds = tt })
  | inr b ↦ rw b (record { holds = b })
]
assert_non_empty-Gives v label = record { holds = tt }

normalize_target-Gives : (v : Value) → Gives IsValidTarget (normalize_target v)
unfolding normalize_target
normalize_target-Gives v = Gives-any (require (is_object v) (fault "target is required")) (λ u.
    Gives-bind _ (assert_non_empty-Gives (get v "namespace") "target.namespace") (λ namespace h₁.
      Gives-bind _ (assert_non_empty-Gives (get v "appserver_id") "target.appserver_id")
        (λ appserver h₂.
          Gives-bind _ (assert_non_empty-Gives (get v "session_id") "target.session_id")
            (λ session h₃.
              Gives-bind _ (assert_non_empty-Gives (get v "thread_id") "target.thread_id")
                (λ thread h₄.
                  Gives-any (optional_non_empty (get v "scope_id") "target.scope_id") (λ scope.
                    Gives-ok (record {
                      has_namespace = h₁;
                      has_appserver = h₂;
                      has_session = h₃;
                      has_thread = h₄;
                    })))))))

has_turn-given :
    (operation : SendOperation) (turn_id : Option String)
    → not (needs_turn operation && not (is_some turn_id)) ≡ true
    → needs_turn operation ≡ true
    → is_some turn_id ≡ true
has_turn-given operation turn_id both needs = ground arith

normalize_intent-Gives :
    (parse_date : String → Option ℕ) (v : Value)
    → Gives (IsValidIntent parse_date) (normalize_intent parse_date v)
unfolding normalize_intent
normalize_intent-Gives parse_date v =
    Gives-any (require (is_object v) (fault "message intent is required")) (λ u.
      Gives-any (assert_non_empty (get v "send_mode") "send_mode") (λ mode_text.
        Gives-any (member_of send_mode_name send_modes "send mode" mode_text) (λ mode.
          Gives-any (assert_non_empty (get v "source") "source") (λ source_text.
            Gives-any (member_of source_name message_sources "message source" source_text)
              (λ source.
                Gives-any
                  (default_member busy_policy_name busy_policies "busy policy" BusyPolicy.defer
                    (get v "busy_policy"))
                  (λ busy_policy.
                    Gives-any
                      (default_member operation_name send_operations "send operation"
                        SendOperation.queue (get v "operation"))
                      (λ operation.
                        Gives-any (optional_non_empty (get v "turn_id") "turn_id") (λ turn_id.
                          Gives-bind _
                            (Gives-require (not (needs_turn operation && not (is_some turn_id))) (
                              fault (
                                concat
                                  (operation_name operation ∷ " operation requires turn_id" ∷ []))))
                            (λ u₁ turn.
                              Gives-any (optional_non_empty (get v "expires_at") "expires_at")
                                (λ expires_at.
                                  Gives-bind _
                                    (Gives-require (not (bad_expiry parse_date expires_at))
                                      (fault "expires_at must be an ISO timestamp"))
                                    (λ u₂ expiry.
                                      Gives-bind _
                                        (assert_non_empty-Gives (get v "intent_id") "intent_id")
                                        (λ intent_id h₁.
                                          Gives-bind _ (normalize_target-Gives (get v "target"))
                                            (λ target h₂.
                                              Gives-bind _
                                                (assert_non_empty-Gives (get v "body") "body")
                                                (λ body h₃.
                                                  Gives-bind _
                                                    (assert_non_empty-Gives (get v "event_key")
                                                      "event_key")
                                                    (λ event_key h₄. Gives-ok (record {
                                                      has_id = h₁;
                                                      has_body = h₃;
                                                      has_event_key = h₄;
                                                      has_target = h₂;
                                                      has_turn =
                                                          has_turn-given operation turn_id turn;
                                                      has_expiry =
                                                          not-true
                                                            (bad_expiry parse_date expires_at)
                                                            expiry;
                                                    }))))))))))))))))

-- An intent that the normaliser returns has an id, a body, an event key and a target that are not
-- blank, a turn where its operation needs one, and an expiry that is a date, if it has one.
pub normalize_intent-IsValid :
    (parse_date : String → Option ℕ) (v : Value) (i : Intent)
    → normalize_intent parse_date v ≡ ok i
    → IsValidIntent parse_date i
normalize_intent-IsValid parse_date v i e =
    Gives-eq (normalize_intent parse_date v) (normalize_intent-Gives parse_date v) e
