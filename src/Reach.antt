-- ===== src/Reach.antt =====
-- explorer/ingress_checks.py: the paths to an explorer that `ingress_targets` finds. The addresses
-- of the host are the argument that they are in the code.
use usdb_explorer.Prelude.{
  ℕ, suc, ◌+◌, ◌<>◌, String, Bool, true, false, if◌then◌else◌, not, ◌&&◌, ◌||◌, ◌=s◌, ◌==◌, List,
  [], ◌∷◌, ◌++◌, Option, none, some,
}
use usdb_explorer.Prelude.Int.{pos, negsuc}
use usdb_explorer.Python.Value.{Value, Fields, obj, str, int, nat, null, truthy}
use usdb_explorer.Python.Exn.{
  Result, ok, raise, value_error, attribute_error, ◌>>=◌, ◌>>◌, subscript, get_or,
}
use usdb_explorer.Python.Text.{has_code, rstrip_code, decimal}
use usdb_explorer.Config.{Url, endpoint}
use usdb_explorer.Config.Ingress.{Host, Address}
pub mod Targets
pub mod Report
pub mod Probe
pub mod Honest
pub mod Total
mod Tests

-- A path that is not checked, with the reason, or one that is: its origin, the URL that is shown,
-- and where its requests connect to if that is not the origin.
pub data Target : Type 0 where
  skip : String → String → Target
  reach : String → String → String → Option (String × Value) → Target

-- What `discover()` gives: the addresses of the host, and a warning.
abbrev pub Discovered : Type 0
Discovered = List String × Option String

abbrev pub warning_list : Option String → List String
warning_list none = []
warning_list (some warning) = if warning =s "" then [] else warning ∷ []

abbrev or_text : Option String → String → String
or_text none default = default
or_text (some s) default = if s =s "" then default else s

-- `f"{port}"` of a port, which is a whole number.
abbrev shown_port : Value → String
shown_port (int (pos n)) = decimal n
shown_port _ = ""

-- What the two kinds of addresses differ in.
pub record Family : Type 0 where
  pub loopback : String
  pub lan : String
  pub specific : String
  pub loopback_only : String
  pub undiscovered : String

abbrev pub ipv4 : Family
ipv4 = record {
  loopback = "loopback";
  lan = "lan";
  specific = "Bundled ingress is bound to a specific non-loopback address.";
  loopback_only = "Bundled ingress is bound to loopback only.";
  undiscovered = "No host address discovered.";
}

abbrev pub ipv6 : Family
ipv6 = record {
  loopback = "loopback-ipv6";
  lan = "host-ipv6";
  specific = "IPv6 ingress is bound to a specific non-loopback address.";
  loopback_only = "IPv6 ingress is bound to loopback only.";
  undiscovered = "No host IPv6 address discovered.";
}

-- The origin and its scheme, and the port of the listener.
pub record Site : Type 0 where
  pub origin : String
  pub scheme : String
  pub port : Value

abbrev bracketed : String → String
bracketed address = if has_code b':' address then "[" <> address <> "]" else address

-- `target(name, address)`
unfoldable pub target : Site → String → String → Target
target site name address =
    reach name site.origin
      (site.scheme <> "://" <> bracketed address <> ":" <> shown_port site.port)
      (some (address, site.port))

-- The names of the addresses from the one with that index on.
unfoldable pub numbered : Site → String → ℕ → List String → List Target
numbered site name index [] = []
numbered site name index (address ∷ addresses) =
    target site (if index == 0 then name else name <> "-" <> decimal (index + 1)) address
    ∷ numbered site name (index + 1) addresses

-- `loopback` is the address that is tried where the listener has all of them or that one.
unfoldable pub loopback_target : Family → Site → Address → String → Target
loopback_target f site bind loopback =
    if bind.is_unspecified || bind.is_loopback
    then target site f.loopback loopback
    else skip f.loopback f.specific

unfoldable pub found_targets : Family → Site → Discovered → List Target
found_targets f site ([], warning) = skip f.lan (or_text warning f.undiscovered) ∷ []
found_targets f site (address ∷ addresses, warning) = numbered site f.lan 0 (address ∷ addresses)

abbrev of_host : Address → Discovered → Discovered
of_host bind discovered = if bind.is_unspecified then discovered else (bind.shown ∷ [], none)

-- The paths to the addresses of the host, and the warnings about them.
unfoldable pub lan_targets : Family → Site → Address → Discovered → List Target × List String
lan_targets f site bind discovered =
    if bind.is_loopback
    then (skip f.lan f.loopback_only ∷ [], [])
    else (found_targets f site (of_host bind discovered), warning_list (of_host bind discovered).1)

unfoldable pub listener : Family → Site → Address → String → Discovered → List Target × List String
listener f site bind loopback discovered =
    let (targets, warnings) = lan_targets f site bind discovered in
    (loopback_target f site bind loopback ∷ targets, warnings)

abbrev pub external_reason : String
external_reason =
    "External proxy listener cannot be inferred from internal backend ports; use check --url for an explicit origin."

abbrev pub text_of : Value → Result String
text_of (str s) = ok s
text_of _ = raise attribute_error

unfoldable pub configured : String → Target
configured origin = reach "configured" origin origin none

abbrev pub is_bundled : Value → Bool
is_bundled (str s) = s =s "bundled"
is_bundled _ = false

-- The address of the IPv4 listener is one, which `load_config` has checked.
module _ (h : Host) (discovered discovered_ipv6 : Discovered) where
  unfoldable pub ipv6_targets : Site → Value → Result (List Target × List String)
  ipv6_targets site given =
      if truthy given
      then (do
        bind ← h.ipv6_address (← text_of given)
        ok (listener ipv6 site bind "::1" discovered_ipv6))
      else ok ([], [])

  unfoldable pub bundled_targets : Value → String → Url → Result (List Target × List String)
  bundled_targets ingress origin url = do
    bind ← h.ip_address (← get_or ingress "bind_address" (str "127.0.0.1"))
    port ←
        (if url.scheme =s "https"
          then get_or ingress "https_port" (nat 28443)
          else get_or ingress "http_port" (nat 28080))
    let site : Site = record { origin = origin; scheme = url.scheme; port = port }
    let (targets, warnings) =
        listener ipv4 site bind (if bind.is_unspecified then "127.0.0.1" else bind.shown) discovered
    (more, more_warnings) ← ipv6_targets site (← get_or ingress "bind_address_ipv6" null)
    ok ((targets ++ more) ++ (configured origin ∷ []), warnings ++ more_warnings)

  unfoldable pub ingress_targets : Value → Result (List Target × List String)
  ingress_targets config = do
    ingress ← subscript config "ingress"
    given ← text_of (← subscript ingress "explorer_url")
    let origin = rstrip_code b'/' given
    url ← endpoint h.urlsplit (str origin) true
    mode ← subscript ingress "mode"
    if not (is_bundled mode)
        then ok (
          skip "loopback" external_reason ∷ skip "lan" external_reason ∷ configured origin ∷ [],
          [],
        )
        else bundled_targets ingress origin url
