-- ===== src/Config/Listening.antt =====
-- Where an accepted `ingress` of explorer/public_config.py listens, and what it publishes.
use usdb_explorer.Prelude.{
  ℕ, ◌≤◌, String, ◌≡◌, subst, inl, inr, Bool, true, false, if◌then◌else◌, ◌&&◌, ◌||◌, ◌=s◌, ◌==◌,
  List, [], ◌∷◌, ◌++◌, any, In, All, Bool-cases, arith,
}
use usdb_explorer.Python.Value.{Value, Fields, obj, int}
use usdb_explorer.Prelude.Int.{pos, negsuc}
use usdb_explorer.Python.Exn.{Result, ok, bind_ok, require_ok, refuse_ok, subscript}
use usdb_explorer.Python.Exn.Loops.{ok-injective}
use usdb_explorer.Config.Ingress.{
  Host, Visit, Address, Ingress, bind_ipv4, bind_ipv6, port_number, port_at, listed_ports,
  with_faucet, with_tls, distinct_ports, read_visit, set_ports, check_exposure, certificates,
  load_ingress,
}

abbrev pub IsPort : ℕ → Type 0
IsPort n = (1 ≤ n) × (n ≤ 65535)

-- No two of the ports are the same.
abbrev pub AreDistinct : List ℕ → Type 0
AreDistinct [] = Unit
AreDistinct (p ∷ ports) = (¬ In p ports) × AreDistinct ports

-- The listener is IPv4, on the loopback interface unless the deployment is public and has its own
-- proxy. The published ports are ports, and no two are the same.
pub record IsListening (ingress : Ingress) : Type 0 where
  pub version : ingress.address.version ≡ 4
  pub private : ingress.visit.public ≡ false → ingress.address.is_loopback ≡ true
  pub external : ingress.visit.bundled ≡ false → ingress.address.is_loopback ≡ true
  pub are_ports : All IsPort ingress.ports
  pub distinct : AreDistinct ingress.ports

any-In : (p : ℕ) (ports : List ℕ) → any (λ q. q == p) ports ≡ false → ¬ In p ports
any-In p [] h i = i
any-In p (q ∷ ports) h (inl e) = ground arith
any-In p (q ∷ ports) h (inr i) = any-In p ports (ground arith) i

distinct_ports-AreDistinct : (ports : List ℕ) → distinct_ports ports ≡ true → AreDistinct ports
unfolding distinct_ports
distinct_ports-AreDistinct [] h = tt
distinct_ports-AreDistinct (p ∷ ports) h =
    (any-In p ports (ground arith), distinct_ports-AreDistinct ports (ground arith))

or_loopback : (a b : Bool) → (a || b) ≡ true → a ≡ false → b ≡ true
or_loopback true b h e = cc
or_loopback false b h e = h

port_number-IsPort : (v : Value) {n : ℕ} → port_number v ≡ ok n → IsPort n
unfolding port_number
port_number-IsPort (int (pos n)) {n = m} h = ground arith
port_number-IsPort (int (negsuc n)) h = cc
port_number-IsPort (obj d) h = cc
port_number-IsPort (Value.arr d) h = cc
port_number-IsPort (Value.str d) h = cc
port_number-IsPort (Value.bool d) h = cc
port_number-IsPort (Value.float d) h = cc
port_number-IsPort Value.null h = cc

port_at-IsPort : (key : String) (settings : Fields) {n : ℕ} → port_at key settings ≡ ok n → IsPort n
unfolding port_at
port_at-IsPort key settings h =
    let (v, _, h1) = bind_ok (subscript (obj settings) key) _ h in port_number-IsPort v h1

listed_ports-IsPort :
    (bundled : Bool) (settings : Fields) {ports : List ℕ}
    → listed_ports bundled settings ≡ ok ports
    → All IsPort ports
unfolding listed_ports
listed_ports-IsPort false settings h =
    let (web, at_web, h1) = bind_ok (port_at "web_port" settings) _ h in
    let (gateway, at_gateway, h2) = bind_ok (port_at "gateway_port" settings) _ h1 in
    subst (All IsPort) (ok-injective h2) (
      port_at-IsPort "web_port" settings at_web,
      (port_at-IsPort "gateway_port" settings at_gateway, tt),
    )
listed_ports-IsPort true settings h =
    let (http, at_http, h1) = bind_ok (port_at "http_port" settings) _ h in
    subst (All IsPort) (ok-injective h1) (port_at-IsPort "http_port" settings at_http, tt)

All-snoc : (xs : List ℕ) (n : ℕ) → All IsPort xs → IsPort n → All IsPort (xs ++ (n ∷ []))
All-snoc [] n a p = (p, tt)
All-snoc (x ∷ xs) n (q, a) p = (q, All-snoc xs n a p)

with_faucet-IsPort :
    (has bundled : Bool) (settings : Fields) (ports : List ℕ) {more : List ℕ} {served : Fields}
    → All IsPort ports
    → with_faucet has bundled settings ports ≡ ok (served, more)
    → All IsPort more
unfolding with_faucet
with_faucet-IsPort false bundled settings ports a h = subst (λ p. All IsPort p.1) (ok-injective h) a
with_faucet-IsPort true bundled settings ports a h =
    let (faucet, at_faucet, h1) = bind_ok (port_at "faucet_port" _) _ h in
    let found = port_at-IsPort "faucet_port" _ at_faucet in
    subst (λ p. All IsPort p.1) (ok-injective h1)
      (elim bundled as (λ b. All IsPort (if b then ports else ports ++ (faucet ∷ []))) [
        | true ↦ a
        | false ↦ All-snoc ports faucet a found
      ])

with_tls-IsPort :
    (host : Host) (v : Visit) (settings : Fields) (ports : List ℕ) {more : List ℕ} {served : Fields}
    → All IsPort ports
    → with_tls host v settings ports ≡ ok (served, more)
    → All IsPort more
unfolding with_tls
with_tls-IsPort host v settings ports a h =
    elim (Bool-cases (v.bundled && (v.origin.scheme =s "https"))) [
      | inl secure ↦
          let (https, at_https, h1) = bind_ok (port_at "https_port" settings) _ (rw secure at h) in
          let (secured, _, h2) = bind_ok (certificates host settings) _ h1 in
          subst (λ p. All IsPort p.1) (ok-injective h2)
            (All-snoc ports https a (port_at-IsPort "https_port" settings at_https))
      | inr plain ↦
          let (_, h1) = refuse_ok _ _ _ (rw plain at h) in
          subst (λ p. All IsPort p.1) (ok-injective h1) a
    ]

-- The address that an accepted listener has.
pub record IsBound (v : Visit) (address : Address) : Type 0 where
  pub version : address.version ≡ 4
  pub private : v.public ≡ false → address.is_loopback ≡ true
  pub external : v.bundled ≡ false → address.is_loopback ≡ true

bind_ipv4-IsBound :
    (host : Host) (v : Visit) {address : Address}
    → bind_ipv4 host v ≡ ok address
    → IsBound v address
unfolding bind_ipv4
bind_ipv4-IsBound host v h =
    let (given, _, h1) = bind_ok (subscript (obj _) "bind_address") _ h in
    let (found, _, h2) = bind_ok (host.ip_address given) _ h1 in
    let (four, h3) = require_ok (found.version == 4) _ _ h2 in
    let (private, h4) = require_ok (v.public || found.is_loopback) _ _ h3 in
    let (external, h5) = require_ok (v.bundled || found.is_loopback) _ _ h4 in
    subst (IsBound v) (ok-injective h5) (record {
      version = ground arith;
      private = or_loopback v.public found.is_loopback private;
      external = or_loopback v.bundled found.is_loopback external;
    })

-- Whatever the settings, the ingress of an accepted configuration listens where its exposure and
-- its proxy allow, and publishes distinct ports.
pub load_ingress-IsListening :
    (host : Host) (network : Value) (has_faucet : Bool) (lock : Result Value) (value : Value)
    {ingress : Ingress}
    → load_ingress host network has_faucet lock value ≡ ok ingress
    → IsListening ingress
unfolding load_ingress
load_ingress-IsListening host network has_faucet lock value h =
    let (visit, _, h1) = bind_ok (read_visit host value) _ h in
    let (address, at_address, h2) = bind_ok (bind_ipv4 host visit) _ h1 in
    let (bound, _, h3) = bind_ok (bind_ipv6 host visit _) _ h2 in
    let (_, _, h4) = bind_ok (check_exposure visit network lock) _ h3 in
    let (ported, _, h5) = bind_ok (set_ports _ bound) _ h4 in
    let (base, at_base, h6) = bind_ok (listed_ports visit.bundled ported) _ h5 in
    let ((served, more), at_more, h7) =
      bind_ok (with_faucet has_faucet visit.bundled ported base) _ h6 in
    let ((settings, ports), at_ports, h8) = bind_ok (with_tls host visit served more) _ h7 in
    let (apart, h9) = require_ok (distinct_ports ports) _ _ h8 in
    let at = bind_ipv4-IsBound host visit at_address in
    let base_ports = listed_ports-IsPort visit.bundled ported at_base in
    let more_ports = with_faucet-IsPort has_faucet visit.bundled ported base base_ports at_more in
    subst IsListening (ok-injective h9) (record {
      version = at.version;
      private = at.private;
      external = at.external;
      are_ports = with_tls-IsPort host visit served more more_ports at_ports;
      distinct = distinct_ports-AreDistinct ports apart;
    })
