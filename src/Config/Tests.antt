-- ===== src/Config/Tests.antt =====
-- The configuration and an address on concrete inputs.
use codex_hooks.Base.{String, ◌≡◌, refl, Outcome, ok, [], ◌∷◌, some, true}
use codex_hooks.Protocol.Value.{get_field, get, Value, Items, str}
use codex_hooks.Daemon.Record.{object}
use codex_hooks.Config.Validate.{
  assert_object, assert_scopes, assert_strings, non_empty_items, integer_between, when_defined,
  items_of, boolean_of, assert_string, assert_keys, assert_allowed, assert_present,
  validate_runtime, validate_codexapp, validate_source_address,
}
use codex_hooks.Config.Endpoint.{
  read_url, Endpoint, Endpoint, read_url, read_url, Endpoint, read_url, Endpoint, read_url,
  Endpoint, read_url, Endpoint, read_url, Endpoint, normalize_loopback_host, read_url, Url,
  Endpoint,
}
use codex_hooks.Config.Daemon.{validate_policy, validate_policies, validate_daemon_config}
use codex_hooks.Config.Accepted.{validate_daemon_config-IsAccepted, IsAccepted}

abbrev policy : String → Value
policy name =
    object (("name", str name) ∷ ("enabled", Value.bool true) ∷ ("config", object []) ∷ [])

abbrev config : Value
config = object (
    (
      "runtime",
      object (
          ("host", str "localhost")
          ∷ ("port", Value.num 4000)
          ∷ ("state_directory", str "state")
          ∷ []),
    )
    ∷ (
      "codexapp",
      object (
          ("socket", str "app.sock")
          ∷ ("required_capabilities", Value.arr (Items.cons (str "turns") Items.nil))
          ∷ (
            "source_address",
            object (("scopeId", str "scope") ∷ ("sessionId", str "session") ∷ []),
          )
          ∷ ("target_scopes", object (("main", str "scope") ∷ []))
          ∷ []),
    )
    ∷ (
      "policies",
      Value.arr (Items.cons (policy "stopless") (Items.cons (policy "timer") Items.nil)),
    )
    ∷ [])

validate_daemon_config-IsAccepted_example : (config ≡ config) × IsAccepted config
unfolding validate_daemon_config validate_runtime validate_codexapp validate_source_address
    assert_object assert_string assert_keys assert_allowed assert_present normalize_loopback_host
    integer_between non_empty_items assert_strings assert_scopes when_defined items_of
    validate_policies validate_policy boolean_of get get_field
validate_daemon_config-IsAccepted_example = validate_daemon_config-IsAccepted config config refl

abbrev read : String → Outcome Url
read text = ok (record {
  protocol = "http:";
  hostname = "[::1]";
  port = some 4000;
  pathname = "/";
  search = "";
  hash = "";
})

abbrev local : Endpoint
local = record { endpoint = "http://[::1]:4000"; host = "::1"; port = 4000 }
