-- ===== src/Config.antt =====
-- explorer/public_config.py: the checks of a configuration. `urlsplit` and the network catalog are
-- outside of the program, and parameters.
use usdb_explorer.Prelude.{
  ℕ, String, Bool, true, false, if◌then◌else◌, not, ◌&&◌, ◌||◌, ◌=s◌, leb, List, [], ◌∷◌, Option,
  none, some, all, any, contains, ltb,
}
use Prim.Native.Char.{code}
use usdb_explorer.Python.Value.{Value, Fields, obj, str, keys, has}
use usdb_explorer.Python.Exn.{Result, ok, raise, Exn, value_error, ◌>>=◌, ◌>>◌, require, refuse}
use usdb_explorer.Python.Regex.{Regex, class, plus, full_match}
use usdb_explorer.Python.Text.{is_space, has_code}
pub mod Upstream
pub mod Loopback
pub mod Memory
pub mod Images
pub mod Ingress
pub mod Settings
pub mod Published
pub mod Configured
pub mod Listening
pub mod Load
pub mod Locked
pub mod Accepted
mod Tests
pub mod Examples

-- `fields(value, required, optional)`: a dict with the required keys, and with no key that is not
-- named.
unfoldable pub fields : Value → List String → List String → Result Fields
fields (obj value) required optional =
    if not (all (λ key. contains required key || contains optional key) (keys value))
      || not (all (λ key. has key value) required)
    then raise (value_error "invalid configuration fields")
    else ok value
fields _ required optional = raise (value_error "invalid configuration fields")

-- The parts of a URL. Its port is read on demand, and may be no number.
pub record Url : Type 0 where
  pub scheme : String
  pub hostname : Option String
  pub has_credentials : Bool
  pub query : String
  pub fragment : String
  pub port : Result (Option ℕ)
  pub path : String

-- `c.isspace() or ord(c) < 32`, and the characters that a template would read.
abbrev is_refused : ℕ → Bool
is_refused c = is_space c || ltb c 32

unfoldable pub has_refused : String → Bool
has_refused String.[] = false
has_refused (String.◌∷◌ c s) = is_refused (code c) || has_refused s

abbrev is_unsafe : String → Bool
is_unsafe s = any (λ c. has_code c s) (b'$' ∷ b';' ∷ b'{' ∷ b'}' ∷ b'\\' ∷ b'"' ∷ [])

abbrev hostname_re : Regex
hostname_re = plus (
    class (
      (b'a', b'z') ∷ (b'A', b'Z') ∷ (b'0', b'9') ∷ (b'.', b'.') ∷ (b':', b':') ∷ (b'-', b'-') ∷ []))

abbrev pub is_host : Option String → Bool
is_host none = false
is_host (some s) = full_match hostname_re s

-- An HTTP or HTTPS URL of a host, with nothing beside its port and its path.
unfoldable pub is_plain : Url → Bool
is_plain url =
    ((url.scheme =s "http") || (url.scheme =s "https"))
    && is_host url.hostname
    && not url.has_credentials
    && (url.query =s "")
    && (url.fragment =s "")

abbrev pub is_port : Option ℕ → Bool
is_port none = true
is_port (some n) = leb 1 n && leb n 65535

abbrev is_origin : Url → Bool
is_origin url = (url.path =s "") || (url.path =s "/")

unfoldable pub endpoint : (String → Result Url) → Value → Bool → Result Url
endpoint urlsplit (str value) origin = do
  refuse (has_refused value || is_unsafe value) "invalid HTTP(S) endpoint"
  url ← urlsplit value
  require (is_plain url) "HTTP(S) endpoint without credentials, query or fragment required"
  port ← url.port
  require (is_port port) "invalid endpoint port"
  require (not origin || is_origin url) "explorer_url must be an origin without a subpath"
  ok url
endpoint urlsplit _ origin = raise (value_error "invalid HTTP(S) endpoint")
