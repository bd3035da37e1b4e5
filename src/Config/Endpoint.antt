-- ===== src/Config/Endpoint.antt =====
-- src/endpoint.js: addresses of this machine only.
use codex_hooks.Base.{
  ℕ, String, Option, List, [], ◌∷◌, ◌==◌, ◌&&◌, member, concat, or_else, if◌then◌else◌, fault,
  Outcome, ok, throws, require, ◌>>=◌, ◌>>◌,
}
use Prim.Native.String as Native

-- What `new URL` reads of a text; a port that is not written is none.
pub record Url : Type 0 where
  pub protocol : String
  pub hostname : String
  pub port : Option ℕ
  pub pathname : String
  pub search : String
  pub hash : String

pub record Endpoint : Type 0 where
  pub endpoint : String
  pub host : String
  pub port : ℕ

-- `LOOPBACK_HOSTS`
abbrev pub loopback_hosts : List String
loopback_hosts = "127.0.0.1" ∷ "localhost" ∷ "::1" ∷ "[::1]" ∷ []

unfoldable pub normalize_loopback_host : String → String → Outcome String
normalize_loopback_host value label =
    if member value loopback_hosts
    then ok (if value == "[::1]" then "::1" else value)
    else throws (fault (concat (label ∷ " must be loopback-only" ∷ [])))

-- `value.replace(/\/$/, "")`
unfoldable pub without_slash : String → String
without_slash Native.[] = ""
without_slash (Native.◌∷◌ c rest) =
    let short = without_slash rest in if Native.◌∷◌ c rest == "/" then "" else Native.◌∷◌ c short

-- The error of a text that is no URL.
unfoldable pub read_url : Outcome Url → String → Outcome Url
read_url (ok url) label = ok url
read_url (throws e) label =
    throws (fault (concat (label ∷ " must be an http(s) origin: " ∷ e.message ∷ [])))

-- `normalizeLoopbackEndpoint`, for the given `new URL`
unfoldable pub normalize_loopback_endpoint :
    (String → Outcome Url) → String → String → Outcome Endpoint
normalize_loopback_endpoint parse_url value label = do
  url ← read_url (parse_url value) label
  require (url.protocol == "http:" && url.pathname == "/" && url.search == "" && url.hash == "")
      (fault (concat (label ∷ " must be an http origin" ∷ [])))
  host ← normalize_loopback_host url.hostname label
  ok (record { endpoint = without_slash value; host = host; port = or_else url.port 80 })
