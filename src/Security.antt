-- ===== src/Security.antt =====
-- The image security policy: `security_enforcement` of explorer/public_config.py, and
-- scripts/image_security.py in the child modules.
use usdb_explorer.Prelude.{
  String, ◌<>◌, Bool, true, false, if◌then◌else◌, not, ◌&&◌, ◌||◌, List, [], ◌∷◌, Option, none,
  some, ◌=s◌,
}
use usdb_explorer.Python.Value.{Value, null, bool, int, float, str, arr, obj}
use usdb_explorer.Python.Exn.{Result, ok, raise, Exn, value_error, type_error, ◌>>=◌}
use usdb_explorer.Python.Regex.{
  Regex, class, then_, text, plus, repeat, digit, hex_digit, full_match,
}
pub mod Policy
pub mod Reference
pub mod Scan
pub mod Findings
pub mod Targets
pub mod Verdict
mod Tests

abbrev pub testnet_re : Regex
testnet_re = then_ (text "usdb-testnet-v") (plus digit)

abbrev pub mainnet_re : Regex
mainnet_re = then_ (text "usdb-mainnet-v") (plus digit)

-- `re.fullmatch(r, str(value))` of a pattern that the text of no other value matches.
abbrev pub matches : Regex → Value → Bool
matches r (str s) = full_match r s
matches r _ = false

-- `requested`, which is `None` or one of the two modes.
unfoldable pub requested_mode : Value → Result (Option String)
requested_mode null = ok none
requested_mode (str s) =
    if (s =s "strict") || (s =s "report-only")
    then ok (some s)
    else raise (value_error "security enforcement must be strict or report-only")
requested_mode (arr items) = raise type_error
requested_mode (obj d) = raise type_error
requested_mode _ = raise (value_error "security enforcement must be strict or report-only")

-- `requested or "report-only"`
abbrev or_report : Option String → String
or_report none = "report-only"
or_report (some s) = s

abbrev is_report : Option String → Bool
is_report none = false
is_report (some s) = s =s "report-only"

unfoldable pub network_mode : Value → Option String → Result String
network_mode network requested =
    if matches testnet_re network
    then ok (or_report requested)
    else if matches mainnet_re network
    then (if is_report requested
        then raise (value_error "mainnet security enforcement must remain strict")
        else ok "strict")
    else raise (value_error "unsupported network security policy")

unfoldable pub security_enforcement : Value → Value → Result String
security_enforcement network requested = do
  mode ← requested_mode requested
  network_mode network mode

abbrev name_char : Regex
name_char =
    class
      ((b'a', b'z') ∷ (b'0', b'9') ∷ (b'.', b'.') ∷ (b'/', b'/') ∷ (b'_', b'_') ∷ (b'-', b'-') ∷ [])

-- `r"[a-z0-9./_-]+@sha256:[0-9a-f]{64}"`
abbrev pub digest_image : Regex
digest_image = then_ (plus name_char) (then_ (text "@sha256:") (repeat 64 hex_digit))
