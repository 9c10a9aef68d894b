-- ===== src/Config/Ingress.antt =====
-- The `ingress` of `load_config` in explorer/public_config.py, and `ipv6_binding`. The parsers of
-- URLs and addresses and the directory of the certificates are outside of the program.
use usdb_explorer.Prelude.{
  ℕ, String, Bool, true, false, if◌then◌else◌, not, ◌&&◌, ◌||◌, ◌=s◌, ◌==◌, leb, List, [], ◌∷◌,
  ◌++◌, none, some, any,
}
use usdb_explorer.Prelude.Int.{pos}
use usdb_explorer.Python.Value.{
  Value, Fields, end, null, obj, arr, str, int, nat, lookup, has, assign, truthy,
}
use usdb_explorer.Python.Exn.{
  Result, ok, raise, value_error, type_error, ◌>>=◌, ◌>>◌, require, refuse, subscript,
}
use usdb_explorer.Python.Text.{has_code, rstrip_code}
use usdb_explorer.Faucet.{set_default}
use usdb_explorer.Security.{security_enforcement}
use usdb_explorer.Config.{Url, fields, endpoint}

-- An address of `ipaddress`.
pub record Address : Type 0 where
  pub version : ℕ
  pub is_loopback : Bool
  pub is_unspecified : Bool
  pub is_multicast : Bool
  pub is_link_local : Bool
  pub has_scope : Bool
  pub is_mapped : Bool
  pub shown : String

-- What the host gives: the parsers, the resolved directory of the certificates, and whether it has
-- a regular file of that name which no symbolic link takes out of it.
pub record Host : Type 0 where
  pub urlsplit : String → Result Url
  pub ip_address : Value → Result Address
  pub ipv6_address : String → Result Address
  pub resolve : Value → Result String
  pub has_file : String → String → Bool

abbrev ingress_keys : List String
ingress_keys =
    "bind_address" ∷ "bind_address_ipv6" ∷ "web_port" ∷ "gateway_port" ∷ "http_port" ∷ "https_port"
    ∷ "tls" ∷ "exposure" ∷ "faucet_port" ∷ []

-- `v not in {first, second}`, and whether it is the first.
unfoldable pub one_of : String → String → String → Value → Result Bool
one_of first second message (str s) =
    if s =s first then ok true else if s =s second then ok false else raise (value_error message)
one_of first second message (obj d) = raise type_error
one_of first second message (arr items) = raise type_error
one_of first second message _ = raise (value_error message)

-- What the first lines find out.
pub record Visit : Type 0 where
  pub bundled : Bool
  pub public : Bool
  pub origin : Url
  pub settings : Fields

abbrev pub text_of : Value → String
text_of (str s) = s
text_of _ = ""

abbrev bad_ipv6 : String
bad_ipv6 = "bind_address_ipv6 must be an IPv6 address without brackets or a zone ID"

-- `except ValueError: raise ValueError(message) from None`
abbrev reworded : Result Address → String → Result Address
reworded (raise (value_error m)) message = raise (value_error message)
reworded r message = r

module _ (h : Host) where
  -- `explorer_url` is a text, since it is an endpoint.
  unfoldable pub read_visit : Value → Result Visit
  read_visit value = do
    given ← fields value ("mode" ∷ "explorer_url" ∷ []) ingress_keys
    mode ← subscript (obj given) "mode"
    bundled ← one_of "bundled" "external" "ingress.mode must be external or bundled" mode
    exposure ← subscript (obj (set_default "exposure" (str "private") given)) "exposure"
    public ← one_of "public" "private" "ingress.exposure must be private or public" exposure
    url ← subscript (obj given) "explorer_url"
    origin ← endpoint h.urlsplit url true
    ok (record {
      bundled = bundled;
      public = public;
      origin = origin;
      settings =
          assign "explorer_url" (str (rstrip_code b'/' (text_of url)))
            (set_default "exposure" (str "private") given);
    })

  unfoldable pub ipv6_binding : Value → Bool → Result String
  ipv6_binding (str s) public = do
    address ← reworded (h.ipv6_address s) bad_ipv6
    refuse (address.has_scope || address.is_mapped || address.is_multicast || address.is_link_local)
        "bind_address_ipv6 must be unicast, loopback or ::; scoped and IPv4-mapped addresses are unsupported"
    require (public || address.is_loopback) "private deployments must bind IPv6 loopback (::1)"
    ok address.shown
  ipv6_binding _ public = raise (value_error bad_ipv6)

  -- The IPv4 listener.
  unfoldable pub bind_ipv4 : Visit → Result Address
  bind_ipv4 v = do
    given ← subscript (obj (set_default "bind_address" (str "127.0.0.1") v.settings)) "bind_address"
    address ← h.ip_address given
    require (address.version == 4)
        "bind_address must be IPv4; use bind_address_ipv6 for an additional bundled IPv6 listener"
    require (v.public || address.is_loopback) "private deployments must bind loopback"
    require (v.bundled || address.is_loopback)
        "external ingress requires loopback bindings behind the operator's proxy"
    ok address

  unfoldable pub bind_ipv6 : Visit → Fields → Result Fields
  bind_ipv6 v settings = elim (lookup "bind_address_ipv6" settings) [
    | none ↦ ok settings
    | some given ↦ do
      require v.bundled "bind_address_ipv6 is only supported by bundled ingress"
      shown ← ipv6_binding given v.public
      ok (assign "bind_address_ipv6" (str shown) settings)
  ]

-- Whether findings stop a public deployment of the network.
unfoldable pub check_exposure : Visit → Value → Result Value → Result (Unit {0})
check_exposure v network lock = if not v.public then ok tt else do
  enforcement ← security_enforcement network null
  require ((v.origin.scheme =s "https") || not (enforcement =s "strict"))
      "public exposure requires HTTPS"
  if not (enforcement =s "strict") then ok tt else do
    qualified ← subscript (← lock) "qualified_for_public_exposure"
    require (truthy qualified) "strict public exposure requires qualified release images"

-- `type(v) is int and 1 <= v <= 65535`
unfoldable pub port_number : Value → Result ℕ
port_number (int (pos n)) =
    if leb 1 n && leb n 65535 then ok n else raise (value_error "invalid ingress port")
port_number _ = raise (value_error "invalid ingress port")

unfoldable pub port_at : String → Fields → Result ℕ
port_at key settings = do port_number (← subscript (obj settings) key)

unfoldable pub set_ports : List (String × ℕ) → Fields → Result Fields
set_ports [] settings = ok settings
set_ports ((key, default) ∷ more) settings = do
  port_at key (set_default key (nat default) settings)
  set_ports more (set_default key (nat default) settings)

abbrev pub default_ports : List (String × ℕ)
default_ports =
    ("web_port", 28080)
    ∷ ("gateway_port", 28081)
    ∷ ("http_port", 28080)
    ∷ ("https_port", 28443)
    ∷ []

-- The ports that the ingress publishes, but for HTTPS. They are read again behind the loop that
-- has checked them.
unfoldable pub listed_ports : Bool → Fields → Result (List ℕ)
listed_ports false settings = do
  web ← port_at "web_port" settings
  gateway ← port_at "gateway_port" settings
  ok (web ∷ gateway ∷ [])
listed_ports true settings = do http ← port_at "http_port" settings; ok (http ∷ [])

unfoldable pub with_faucet : Bool → Bool → Fields → List ℕ → Result (Fields × List ℕ)
with_faucet false bundled settings ports = ok (settings, ports)
with_faucet true bundled settings ports = do
  faucet ← port_at "faucet_port" (set_default "faucet_port" (nat 28083) settings)
  ok (
    set_default "faucet_port" (nat 28083) settings,
    if bundled then ports else ports ++ (faucet ∷ []),
  )

abbrev unsafe_codes : List ℕ
unsafe_codes = b'$' ∷ b':' ∷ 10 ∷ 13 ∷ []

abbrev pub certificate_names : List String
certificate_names = "fullchain.pem" ∷ "privkey.pem" ∷ []

module _ (h : Host) where
  -- The directory of the certificates, which `tls` has to name.
  unfoldable pub certificates : Fields → Result Fields
  certificates settings = do
    tls ←
        fields (elim (lookup "tls" settings) [ none ↦ obj end | some tls ↦ tls ])
          ("certificate_dir" ∷ []) []
    dir ← h.resolve (← subscript (obj tls) "certificate_dir")
    refuse (any (λ c. has_code c dir) unsafe_codes)
        "certificate paths cannot contain $, colon or newlines"
    require (h.has_file dir "fullchain.pem" && h.has_file dir "privkey.pem")
        "certificate directory must contain readable fullchain.pem and privkey.pem"
    ok (assign "tls" (obj (assign "certificate_dir" (str dir) tls)) settings)

  -- HTTPS of the bundled ingress has a port and certificates, and nothing else has `tls`.
  unfoldable pub with_tls : Visit → Fields → List ℕ → Result (Fields × List ℕ)
  with_tls v settings ports =
      if v.bundled && (v.origin.scheme =s "https")
      then (do
        https ← port_at "https_port" settings
        secured ← certificates settings
        ok (secured, ports ++ (https ∷ [])))
      else do
        refuse (has "tls" settings) "tls certificate_dir is only used by bundled HTTPS"
        ok (settings, ports)

-- `len(set(ports)) == len(ports)`
unfoldable pub distinct_ports : List ℕ → Bool
distinct_ports [] = true
distinct_ports (p ∷ ports) = not (any (λ q. q == p) ports) && distinct_ports ports

-- The checked ingress: its settings with their defaults, where it listens, and what it publishes.
pub record Ingress : Type 0 where
  pub visit : Visit
  pub address : Address
  pub ports : List ℕ
  pub settings : Fields

unfoldable pub load_ingress : Host → Value → Bool → Result Value → Value → Result Ingress
load_ingress h network has_faucet lock value = do
  visit ← read_visit h value
  address ← bind_ipv4 h visit
  bound ← bind_ipv6 h visit (set_default "bind_address" (str "127.0.0.1") visit.settings)
  check_exposure visit network lock
  ported ← set_ports default_ports bound
  base ← listed_ports visit.bundled ported
  (served, more) ← with_faucet has_faucet visit.bundled ported base
  (settings, ports) ← with_tls h visit served more
  require (distinct_ports ports) "published ingress ports must be distinct"
  ok (record { visit = visit; address = address; ports = ports; settings = settings })
