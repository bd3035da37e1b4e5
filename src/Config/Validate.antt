-- ===== src/Config/Validate.antt =====
-- src/config.js: `validateDaemonConfig` and the checks of its parts, and `loadDaemonConfig`.
use codex_hooks.Base.{
  ◌++◌, ℕ, suc, String, Bool, not, List, [], ◌∷◌, ◌&&◌, member, concat, or_else, leb, if◌then◌else◌,
  fault, Outcome, ok, throws, require, ◌>>=◌, ◌>>◌, is_blank,
}
use codex_hooks.Protocol.Value.{text?, Value, Fields, Items, get, is_record, decimal}
use codex_hooks.Config.Endpoint.{normalize_loopback_host}

unfoldable pub assert_object : Value → String → Outcome (Unit {0})
assert_object value name =
    require (is_record value) (fault (concat (name ∷ " must be an object" ∷ [])))

-- `assertString`
unfoldable pub assert_string : Value → String → Outcome (Unit {0})
assert_string (Value.str s) name =
    require (not (is_blank s)) (fault (concat (name ∷ " must be a non-empty string" ∷ [])))
assert_string value name = throws (fault (concat (name ∷ " must be a non-empty string" ∷ [])))

-- `Object.keys`
abbrev pub field_names : Fields → List String
field_names Fields.end = []
field_names (Fields.field k v more) = k ∷ field_names more

abbrev pub keys_of : Value → List String
keys_of (Value.obj fs) = field_names fs
keys_of v = []

unfoldable pub assert_allowed : List String → List String → String → Outcome (Unit {0})
assert_allowed [] allowed name = ok tt
assert_allowed (key ∷ more) allowed name = do
  require (member key allowed) (fault (concat (name ∷ " has unsupported field: " ∷ key ∷ [])))
  assert_allowed more allowed name

unfoldable pub assert_present : List String → List String → String → Outcome (Unit {0})
assert_present [] present name = ok tt
assert_present (key ∷ more) present name = do
  require (member key present) (fault (concat (name ∷ "." ∷ key ∷ " is required" ∷ [])))
  assert_present more present name

unfoldable pub assert_keys : Value → List String → String → List String → Outcome (Unit {0})
assert_keys value keys name optional = do
  assert_allowed (keys_of value) (keys ++ optional) name
  assert_present keys (keys_of value) name

-- `Number.isInteger(value) && low <= value && value <= high`
unfoldable pub integer_between : Value → ℕ → ℕ → String → Outcome ℕ
integer_between (Value.num n) low high message =
    if leb low n && leb n high then ok n else throws (fault message)
integer_between value low high message = throws (fault message)

-- `typeof value === "boolean"`, or the error
unfoldable pub boolean_of : Value → String → Outcome Bool
boolean_of (Value.bool b) message = ok b
boolean_of value message = throws (fault message)

-- `Array.isArray(value)`, or the error
unfoldable pub items_of : Value → String → Outcome Items
items_of (Value.arr items) message = ok items
items_of value message = throws (fault message)

-- A check whose result is not used.
abbrev pub ignore {ℓ} : {A : Type ℓ} → Outcome A → Outcome (Unit {0})
ignore (ok a) = ok tt
ignore (throws e) = throws e

-- The checks of `value.runtime`; the port.
unfoldable pub validate_runtime : Value → Outcome ℕ
validate_runtime runtime = do
  assert_object runtime "runtime"
  assert_keys runtime ("host" ∷ "port" ∷ "state_directory" ∷ []) "runtime" []
  assert_string (get runtime "host") "runtime.host"
  ignore (normalize_loopback_host (or_else (text? (get runtime "host")) "") "runtime.host")
  port ←
      integer_between (get runtime "port") 0 65535 "runtime.port must be an integer from 0 to 65535"
  assert_string (get runtime "state_directory") "runtime.state_directory"
  ok port

-- `forEach((entry, index) => assertString(entry, …))`
unfoldable pub assert_strings : Items → ℕ → String → Outcome (Unit {0})
assert_strings Items.nil index name = ok tt
assert_strings (Items.cons entry more) index name = do
  assert_string entry (concat (name ∷ "[" ∷ decimal index ∷ "]" ∷ []))
  assert_strings more (suc index) name

-- `!Array.isArray(value) || value.length === 0`
unfoldable pub non_empty_items : Value → String → Outcome Items
non_empty_items (Value.arr (Items.cons v more)) message = ok (Items.cons v more)
non_empty_items value message = throws (fault message)

-- `for (const [key, scopeId] of Object.entries(…)) assertString(scopeId, …)`
unfoldable pub assert_scopes : Fields → Outcome (Unit {0})
assert_scopes Fields.end = ok tt
assert_scopes (Fields.field key scope_id more) = do
  assert_string scope_id (concat ("codexapp.target_scopes." ∷ key ∷ []))
  assert_scopes more

abbrev pub fields_of : Value → Fields
fields_of (Value.obj fs) = fs
fields_of v = Fields.end

-- `value !== undefined`, then a check
unfoldable pub when_defined : Value → Outcome (Unit {0}) → Outcome (Unit {0})
when_defined Value.undefined check = ok tt
when_defined value check = check

-- `["service", "appserver"].includes(value)`
unfoldable pub assert_source_kind : Value → Outcome (Unit {0})
assert_source_kind (Value.str s) =
    require (member s ("service" ∷ "appserver" ∷ []))
      (fault "codexapp.source_kind must be service or appserver")
assert_source_kind value = throws (fault "codexapp.source_kind must be service or appserver")

unfoldable pub validate_source_address : Value → Outcome (Unit {0})
validate_source_address address = do
  assert_object address "codexapp.source_address"
  assert_keys address ("scopeId" ∷ "sessionId" ∷ []) "codexapp.source_address" []
  assert_string (get address "scopeId") "codexapp.source_address.scopeId"
  assert_string (get address "sessionId") "codexapp.source_address.sessionId"

-- The checks of `value.codexapp`; its capabilities.
unfoldable pub validate_codexapp : Value → Outcome Items
validate_codexapp codexapp = do
  assert_object codexapp "codexapp"
  assert_keys codexapp
      ("socket" ∷ "required_capabilities" ∷ "source_address" ∷ "target_scopes" ∷ []) "codexapp"
      ("source_kind" ∷ "targets_file" ∷ [])
  assert_string (get codexapp "socket") "codexapp.socket"
  capabilities ←
      non_empty_items (get codexapp "required_capabilities")
        "codexapp.required_capabilities must be a non-empty array"
  assert_strings capabilities 0 "codexapp.required_capabilities"
  validate_source_address (get codexapp "source_address")
  when_defined (get codexapp "source_kind") (assert_source_kind (get codexapp "source_kind"))
  when_defined (get codexapp "targets_file")
      (assert_string (get codexapp "targets_file") "codexapp.targets_file")
  assert_object (get codexapp "target_scopes") "codexapp.target_scopes"
  assert_scopes (fields_of (get codexapp "target_scopes"))
  ok capabilities
