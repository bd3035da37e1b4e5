-- ===== src/Config/Daemon.antt =====
-- src/config.js: the supervisor's and the policies' parts, `validateDaemonConfig` as a whole, and
-- `loadDaemonConfig`.
use codex_hooks.Base.{
  ℕ, suc, String, Bool, true, false, not, List, [], ◌∷◌, ◌||◌, member, concat, or_else, fault,
  Outcome, ok, throws, require, ◌>>=◌, ◌>>◌, is_blank,
}
use codex_hooks.Protocol.Value.{Value, Items, get, truthy, decimal, text?}
use codex_hooks.Config.Validate.{
  assert_object, assert_string, assert_keys, integer_between, boolean_of, items_of,
  validate_runtime, validate_codexapp, when_defined, ignore,
}

-- `value.args.every((entry) => typeof entry === "string")`
unfoldable pub all_texts : Items → Bool
all_texts Items.nil = true
all_texts (Items.cons (Value.str s) more) = all_texts more
all_texts (Items.cons v more) = false

-- `value.command !== null && typeof value.command !== "string"`, then an error
unfoldable pub assert_command : Value → String → Outcome (Unit {0})
assert_command (Value.str s) name = ok tt
assert_command Value.null name = ok tt
assert_command value name =
    throws (fault (concat (name ∷ ".command must be a string or null" ∷ [])))

unfoldable pub validate_process_spec : Value → String → Outcome (Unit {0})
validate_process_spec value name = do
  assert_object value name
  assert_keys value ("command" ∷ "args" ∷ []) name []
  assert_command (get value "command") name
  args ← items_of (get value "args") (concat (name ∷ ".args must be an array of strings" ∷ []))
  require (all_texts args) (fault (concat (name ∷ ".args must be an array of strings" ∷ [])))

unfoldable pub validate_supervisor_config : Value → Outcome (Unit {0})
validate_supervisor_config value = do
  assert_object value "supervisor"
  assert_keys value ("enabled" ∷ "startup_timeout_ms" ∷ "codexapp" ∷ "hooksd" ∷ []) "supervisor" []
  enabled ← boolean_of (get value "enabled") "supervisor.enabled must be boolean"
  ignore (
      integer_between (get value "startup_timeout_ms") 1 120000
        "supervisor.startup_timeout_ms must be an integer from 1 to 120000")
  validate_process_spec (get value "codexapp") "supervisor.codexapp"
  validate_process_spec (get value "hooksd") "supervisor.hooksd"
  require (not enabled || truthy (get (get value "codexapp") "command"))
      (fault "supervisor.codexapp.command is required when supervisor is enabled")

-- `policies[${index}]` and a field of it
abbrev pub policy_label : ℕ → String → String
policy_label index field = concat ("policies[" ∷ decimal index ∷ "]" ∷ field ∷ [])

-- The checks of an entry of `value.policies`, after the names that came before; its name.
unfoldable pub validate_policy : Value → ℕ → List String → Outcome String
validate_policy policy index names = do
  assert_object policy (policy_label index "")
  assert_keys policy ("name" ∷ "enabled" ∷ "config" ∷ []) (policy_label index "") []
  assert_string (get policy "name") (policy_label index ".name")
  let name = or_else (text? (get policy "name")) ""
  require (not (member name names)) (fault (concat ("duplicate policy name: " ∷ name ∷ [])))
  ignore (boolean_of (get policy "enabled") (policy_label index ".enabled must be boolean"))
  assert_object (get policy "config") (policy_label index ".config")
  ok name

-- The loop over the policies: their names, the newest first.
unfoldable pub validate_policies : Items → ℕ → List String → Outcome (List String)
validate_policies Items.nil index names = ok names
validate_policies (Items.cons policy more) index names = do
  name ← validate_policy policy index names
  validate_policies more (suc index) (name ∷ names)

-- `validateDaemonConfig`
unfoldable pub validate_daemon_config : Value → Outcome Value
validate_daemon_config value = do
  assert_object value "daemon config"
  assert_keys value ("runtime" ∷ "codexapp" ∷ "policies" ∷ []) "daemon config" ("supervisor" ∷ [])
  ignore (validate_runtime (get value "runtime"))
  ignore (validate_codexapp (get value "codexapp"))
  when_defined (get value "supervisor") (validate_supervisor_config (get value "supervisor"))
  policies ← items_of (get value "policies") "policies must be an array"
  ignore (validate_policies policies 0 [])
  ok value

-- The error of a file that cannot be read or parsed.
unfoldable pub read_config : Outcome Value → Outcome Value
read_config (ok value) = ok value
read_config (throws e) = throws (fault (concat ("cannot load daemon config: " ∷ e.message ∷ [])))

-- `loadDaemonConfig`, for what reading and parsing a file gives
unfoldable pub load_daemon_config : (String → Outcome Value) → Value → Outcome Value
load_daemon_config read_json (Value.str path) = do
  require (not (is_blank path)) (fault "daemon config path is required")
  parsed ← read_config (read_json path)
  validate_daemon_config parsed
load_daemon_config read_json value = throws (fault "daemon config path is required")
