-- ===== src/Control/Subagents.antt =====
-- src/control.js: `registerSubagent`, `createSubagent` and `stopSubagent`.
use codex_hooks.Base.{
  String, Bool, [], ◌∷◌, ◌==◌, ◌||◌, not, concat, require, fault, coded, if◌then◌else◌,
}
use codex_hooks.Base.Exec.{Exec, pure, raise, lift, on_option, ◌>>=◌, ◌>>◌}
use codex_hooks.Base.Dict.{Dict, lookup, put}
use codex_hooks.Protocol.Value.{Value, get, str, is_nullish, is_text, truthy}
use codex_hooks.Protocol.Normalize.{TargetScope, assert_non_empty, normalize_target_scope}
use codex_hooks.Daemon.Record.{object}
use codex_hooks.Timer.Requests.{scope_value}
use codex_hooks.Control.Store.{ControlState, Host, subagents_of, put_subagents, read_clock}
use codex_hooks.Control.Add.{with_field}
use codex_hooks.Control.Registration.{
  texts_given, registration_names, digest_of, subagent_record, create_request, created_request,
  is_at_rest, is_ended, end_state, assert_registered_turn,
}

-- `{ ...subagent.target, session_id: threadId, thread_id: threadId }`
abbrev pub stop_target : String → Value → Value
stop_target thread_id subagent =
    with_field "thread_id" (str thread_id)
      (with_field "session_id" (str thread_id) (get subagent "target"))

-- The evidence that a session at rest gives.
abbrev pub rest_evidence : Value → Value
rest_evidence state = object (("state", str "no_active_turn") ∷ ("native_state", state) ∷ [])

abbrev pub interrupt_request : String → Value → Value
interrupt_request thread_id subagent = object (
    ("target", stop_target thread_id subagent)
    ∷ ("thread_id", str thread_id)
    ∷ ("turn_id", get subagent "turn_id")
    ∷ [])

module _ {D : Type 0} (host : Host D) where
  -- `request.created_at || new Date().toISOString()`
  unfoldable pub created_of : Value → Exec (ControlState D) Value
  created_of request =
      if truthy (get request "created_at")
      then pure (get request "created_at")
      else do at ← read_clock host.date_now; pure (str at)

  -- `subagents[id] = changed`, and what is returned
  unfoldable pub replace_subagent : String → Value → Dict Value → Exec (ControlState D) Value
  replace_subagent id changed subagents = do put_subagents (put id changed subagents); pure changed

  unfoldable pub register_new_subagent :
      String → String → TargetScope → Value → Dict Value → Exec (ControlState D) Value
  register_new_subagent thread_id turn_id target request subagents = do
    digest ← lift (digest_of host.digest request)
    created ← created_of request
    seen ← created_of request
    texts ← lift (texts_given request registration_names)
    replace_subagent thread_id
        (subagent_record thread_id turn_id target digest created seen request texts) subagents

  -- `existing.turn_id !== turnId || JSON.stringify(existing.target) !== JSON.stringify(target)`
  unfoldable pub is_other : String → TargetScope → Value → Bool
  is_other turn_id target existing =
      not (is_text (get existing "turn_id") turn_id)
      || not (host.stringify (get existing "target") == host.stringify (scope_value target))

  unfoldable pub register_subagent : Value → Exec (ControlState D) Value
  register_subagent request = do
    thread_id ← lift (assert_non_empty (get request "thread_id") "thread_id")
    turn_id ← lift (assert_non_empty (get request "turn_id") "turn_id")
    target ← lift (normalize_target_scope (get request "target"))
    subagents ← subagents_of
    on_option (lookup thread_id subagents)
        (register_new_subagent thread_id turn_id target request subagents)
        (λ existing. do
          lift (
              require (not (is_other turn_id target existing)) (
                fault (
                  concat (
                    "subagent thread is already registered with different identity: " ∷ thread_id
                    ∷ []))))
          pure existing)

  -- `request.attempt_id || …`, which must not be blank
  unfoldable pub attempt_id_of : Value → Exec (ControlState D) String
  attempt_id_of request =
      if truthy (get request "attempt_id")
      then lift (assert_non_empty (get request "attempt_id") "attempt_id")
      else read_clock host.attempt_name

  unfoldable pub create_with :
      (Value → Exec (ControlState D) Value) → Value → Exec (ControlState D) Value
  create_with create request = do
    target ← lift (normalize_target_scope (get request "target"))
    prompt ← lift (assert_non_empty (get request "prompt") "prompt")
    attempt_id ← attempt_id_of request
    lift (
        require (is_nullish (get request "profile")) (
          coded "unsupported_profile"
            "subagent profile is not supported by the native App Server create boundary"))
    texts ← lift (texts_given request ("cwd" ∷ "model" ∷ "effort" ∷ []))
    receipt ← create (create_request target prompt attempt_id texts request)
    register_subagent (created_request target prompt receipt request)

  unfoldable pub create_subagent : Value → Exec (ControlState D) Value
  create_subagent request =
      on_option host.create_subagent
        (raise (fault "subagent create requires daemon native create capability"))
        (λ create. create_with create request)

  -- The end of a subagent, with the evidence for it. The subagents are those of before the awaits.
  unfoldable pub end_subagent : String → Value → Value → Dict Value → Exec (ControlState D) Value
  end_subagent thread_id subagent evidence subagents = do
    stopped ← read_clock host.date_now
    seen ← read_clock host.date_now
    replace_subagent thread_id
        (with_field "stop_evidence" evidence (
          with_field "last_seen_at" (str seen) (
            with_field "stopped_at" (str stopped)
              (with_field "state" (str (end_state subagent)) subagent))))
        subagents

  -- What the session's status says of a subagent that is to be stopped.
  unfoldable pub stop_by_status :
      (Value → Exec (ControlState D) Value)
      → Value
      → String
      → Value
      → Dict Value
      → Exec (ControlState D) Value
  stop_by_status interrupt status thread_id subagent subagents =
      if is_at_rest (get status "state")
      then end_subagent thread_id subagent (rest_evidence (get status "state")) subagents
      else do
        lift (assert_registered_turn status subagent)
        receipt ← interrupt (interrupt_request thread_id subagent)
        end_subagent thread_id subagent receipt subagents

  unfoldable pub stop_with :
      (Value → Exec (ControlState D) Value)
      → (Value → Exec (ControlState D) Value)
      → String
      → Value
      → Dict Value
      → Exec (ControlState D) Value
  stop_with session_status interrupt thread_id subagent subagents = do
    status ← session_status (stop_target thread_id subagent)
    stop_by_status interrupt status thread_id subagent subagents

  -- A subagent that has not ended.
  unfoldable pub stop_active : String → Value → Dict Value → Exec (ControlState D) Value
  stop_active thread_id subagent subagents =
      on_option host.session_status
        (raise (fault "subagent stop requires daemon native stop capabilities"))
        (λ session_status.
          on_option host.interrupt_subagent
            (raise (fault "subagent stop requires daemon native stop capabilities"))
            (λ interrupt. stop_with session_status interrupt thread_id subagent subagents))

  unfoldable pub stop_subagent : Value → Exec (ControlState D) Value
  stop_subagent request = do
    thread_id ← lift (assert_non_empty (get request "thread_id") "thread_id")
    subagents ← subagents_of
    on_option (lookup thread_id subagents)
        (raise (fault (concat ("subagent not found: " ∷ thread_id ∷ []))))
        (λ subagent.
          if is_ended subagent then pure subagent else stop_active thread_id subagent subagents)
