-- ===== src/Config/Published.antt =====
-- The ports that an accepted `ingress` of explorer/public_config.py publishes, as they are configured.
use usdb_explorer.Prelude.{
  ℕ, String, ◌≡◌, refl, sym, ap, subst, ◌∙◌, inl, inr, Bool, true, false, if◌then◌else◌, ◌&&◌, ◌=s◌,
  List, [], ◌∷◌, ◌++◌, All, none, some, Bool-cases, some-injective,
}
use usdb_explorer.Python.Value.{Value, Fields, nat, lookup}
use usdb_explorer.Python.Exn.{ok, bind_ok, refuse_ok}
use usdb_explorer.Python.Exn.Loops.{ok-injective}
use usdb_explorer.Faucet.{set_default}
use usdb_explorer.Config.Settings.{chosen, lookup-set_default, port_at-lookup}
use usdb_explorer.Config.Ingress.{
  Host, Visit, port_at, set_ports, default_ports, listed_ports, with_faucet, certificates, with_tls,
}

-- The ports have these keys, with their defaults.
abbrev pub AreRead : Fields → List (String × ℕ) → List ℕ → Type 0
AreRead given [] [] = Unit
AreRead given ((key, default) ∷ more) (port ∷ ports) =
    (chosen key (nat default) given ≡ nat port) × AreRead given more ports
AreRead given _ _ = ⊥

abbrev tls_keys : Bool → List (String × ℕ)
tls_keys true = ("https_port", 28443) ∷ []
tls_keys false = []

abbrev faucet_keys : Bool → List (String × ℕ)
faucet_keys true = ("faucet_port", 28083) ∷ []
faucet_keys false = []

-- The keys of the ports that are published, by the mode, the faucet and the scheme.
abbrev pub published_keys : Bool → Bool → Bool → List (String × ℕ)
published_keys true faucet secure = ("http_port", 28080) ∷ tls_keys secure
published_keys false faucet secure =
    ("web_port", 28080) ∷ ("gateway_port", 28081) ∷ faucet_keys faucet

abbrev pub ported_of : Fields → Fields
ported_of d = set_default "https_port" (nat 28443) (
    set_default "http_port" (nat 28080)
      (set_default "gateway_port" (nat 28081) (set_default "web_port" (nat 28080) d)))

pub set_ports-defaults :
    (d : Fields) {ported : Fields} → set_ports default_ports d ≡ ok ported → ported_of d ≡ ported
unfolding set_ports
set_ports-defaults d h =
    let (_, _, h1) = bind_ok (port_at "web_port" _) _ h in
    let (_, _, h2) = bind_ok (port_at "gateway_port" _) _ h1 in
    let (_, _, h3) = bind_ok (port_at "http_port" _) _ h2 in
    let (_, _, h4) = bind_ok (port_at "https_port" _) _ h3 in ok-injective h4

module _ (d : Fields) where
  abbrev web : Fields
  web = set_default "web_port" (nat 28080) d

  abbrev gateway : Fields
  gateway = set_default "gateway_port" (nat 28081) web

  abbrev http : Fields
  http = set_default "http_port" (nat 28080) gateway

  web_there : lookup "web_port" (ported_of d) ≡ some (chosen "web_port" (nat 28080) d)
  web_there =
      lookup-set_default "https_port" (nat 28443) http "web_port"
      ∙ (lookup-set_default "http_port" (nat 28080) gateway "web_port"
          ∙ (lookup-set_default "gateway_port" (nat 28081) web "web_port"
              ∙ lookup-set_default "web_port" (nat 28080) d "web_port"))

  gateway_there : lookup "gateway_port" (ported_of d) ≡ some (chosen "gateway_port" (nat 28081) d)
  gateway_there =
      lookup-set_default "https_port" (nat 28443) http "gateway_port"
      ∙ (lookup-set_default "http_port" (nat 28080) gateway "gateway_port"
          ∙ (lookup-set_default "gateway_port" (nat 28081) web "gateway_port"
              ∙ ap (λ o. some (elim o [ none ↦ nat 28081 | some v ↦ v ]))
                  (lookup-set_default "web_port" (nat 28080) d "gateway_port")))

  http_there : lookup "http_port" (ported_of d) ≡ some (chosen "http_port" (nat 28080) d)
  http_there =
      lookup-set_default "https_port" (nat 28443) http "http_port"
      ∙ (lookup-set_default "http_port" (nat 28080) gateway "http_port"
          ∙ ap (λ o. some (elim o [ none ↦ nat 28080 | some v ↦ v ]))
              (lookup-set_default "gateway_port" (nat 28081) web "http_port"
                ∙ lookup-set_default "web_port" (nat 28080) d "http_port"))

  https_there : lookup "https_port" (ported_of d) ≡ some (chosen "https_port" (nat 28443) d)
  https_there =
      lookup-set_default "https_port" (nat 28443) http "https_port"
      ∙ ap (λ o. some (elim o [ none ↦ nat 28443 | some v ↦ v ]))
          (lookup-set_default "http_port" (nat 28080) gateway "https_port"
            ∙ (lookup-set_default "gateway_port" (nat 28081) web "https_port"
                ∙ lookup-set_default "web_port" (nat 28080) d "https_port"))

  faucet_there : lookup "faucet_port" (ported_of d) ≡ lookup "faucet_port" d
  faucet_there =
      lookup-set_default "https_port" (nat 28443) http "faucet_port"
      ∙ (lookup-set_default "http_port" (nat 28080) gateway "faucet_port"
          ∙ (lookup-set_default "gateway_port" (nat 28081) web "faucet_port"
              ∙ lookup-set_default "web_port" (nat 28080) d "faucet_port"))

AreRead-snoc :
    (d : Fields) (keys : List (String × ℕ)) (ports : List ℕ) (key : String) (default port : ℕ)
    → AreRead d keys ports
    → chosen key (nat default) d ≡ nat port
    → AreRead d (keys ++ ((key, default) ∷ [])) (ports ++ (port ∷ []))
AreRead-snoc d [] [] key default port a h = (h, tt)
AreRead-snoc d [] (p ∷ ports) key default port a h = absurd a
AreRead-snoc d (k ∷ keys) [] key default port a h = absurd a
AreRead-snoc d (k ∷ keys) (p ∷ ports) key default port (first, a) h =
    (first, AreRead-snoc d keys ports key default port a h)

pub AreRead-same :
    (d given : Fields) (keys : List (String × ℕ)) (ports : List ℕ)
    → All (λ k. lookup k.0 d ≡ lookup k.0 given) keys
    → AreRead d keys ports
    → AreRead given keys ports
AreRead-same d given [] [] same a = tt
AreRead-same d given [] (p ∷ ports) same a = a
AreRead-same d given (k ∷ keys) [] same a = a
AreRead-same d given (k ∷ keys) (p ∷ ports) (e, same) (first, a) = (
  ap (λ o. elim o [ none ↦ nat k.1 | some v ↦ v ]) (sym e) ∙ first,
  AreRead-same d given keys ports same a,
)

abbrev base_keys : Bool → List (String × ℕ)
base_keys true = ("http_port", 28080) ∷ []
base_keys false = ("web_port", 28080) ∷ ("gateway_port", 28081) ∷ []

-- The port that is read behind the defaults is the one that is chosen.
read_port :
    (key : String) (settings : Fields) {v : Value} {n : ℕ}
    → lookup key settings ≡ some v
    → port_at key settings ≡ ok n
    → v ≡ nat n
read_port key settings there h = some-injective (sym there ∙ port_at-lookup key settings h)

pub listed_ports-AreRead :
    (bundled : Bool) (d : Fields) {base : List ℕ}
    → listed_ports bundled (ported_of d) ≡ ok base
    → AreRead d (base_keys bundled) base
unfolding listed_ports
listed_ports-AreRead false d h =
    let (w, at_w, h1) = bind_ok (port_at "web_port" (ported_of d)) _ h in
    let (g, at_g, h2) = bind_ok (port_at "gateway_port" (ported_of d)) _ h1 in
    subst (AreRead d (base_keys false)) (ok-injective h2) (
      read_port "web_port" (ported_of d) (web_there d) at_w,
      (read_port "gateway_port" (ported_of d) (gateway_there d) at_g, tt),
    )
listed_ports-AreRead true d h =
    let (p, at_p, h1) = bind_ok (port_at "http_port" (ported_of d)) _ h in
    subst (AreRead d (base_keys true)) (ok-injective h1)
      (read_port "http_port" (ported_of d) (http_there d) at_p, tt)

abbrev more_keys : Bool → Bool → List (String × ℕ)
more_keys bundled faucet = if bundled then base_keys true else base_keys false ++ faucet_keys faucet

plain_keys :
    (d : Fields) (bundled : Bool) (ports : List ℕ)
    → AreRead d (base_keys bundled) ports
    → AreRead d (more_keys bundled false) ports
plain_keys d true ports a = a
plain_keys d false ports a = a

pub with_faucet-AreRead :
    (faucet bundled : Bool) (d : Fields) (base : List ℕ) {served : Fields} {more : List ℕ}
    → AreRead d (base_keys bundled) base
    → with_faucet faucet bundled (ported_of d) base ≡ ok (served, more)
    → AreRead d (more_keys bundled faucet) more
      × (lookup "https_port" served ≡ lookup "https_port" (ported_of d))
unfolding with_faucet
with_faucet-AreRead false bundled d base a h =
    subst
      (λ r.
        AreRead d (more_keys bundled false) r.1
        × (lookup "https_port" r.0 ≡ lookup "https_port" (ported_of d)))
      (ok-injective h) (plain_keys d bundled base a, refl)
with_faucet-AreRead true bundled d base a h =
    let (n, at_n, h1) =
      bind_ok (port_at "faucet_port" (set_default "faucet_port" (nat 28083) (ported_of d))) _ h in
    let there =
      lookup-set_default "faucet_port" (nat 28083) (ported_of d) "faucet_port"
      ∙ ap (λ o. some (elim o [ none ↦ nat 28083 | some v ↦ v ])) (faucet_there d) in
    let found = read_port "faucet_port" _ there at_n in
    subst
      (λ r.
        AreRead d (more_keys bundled true) r.1
        × (lookup "https_port" r.0 ≡ lookup "https_port" (ported_of d)))
      (ok-injective h1)
      (
        by_mode bundled n a found,
        lookup-set_default "faucet_port" (nat 28083) (ported_of d) "https_port",
      )
  where
    by_mode :
        (mode : Bool) (n : ℕ)
        → AreRead d (base_keys mode) base
        → chosen "faucet_port" (nat 28083) d ≡ nat n
        → AreRead d (more_keys mode true) (if mode then base else base ++ (n ∷ []))
    by_mode true n a found = a
    by_mode false n a found = AreRead-snoc d (base_keys false) base "faucet_port" 28083 n a found

module _ (host : Host) (v : Visit) (faucet : Bool) where
  abbrev secure : Bool
  secure = v.origin.scheme =s "https"

  pub with_tls-AreRead :
      (d served : Fields) (ports : List ℕ) {settings : Fields} {all_ports : List ℕ}
      → AreRead d (more_keys v.bundled faucet) ports
      → lookup "https_port" served ≡ lookup "https_port" (ported_of d)
      → with_tls host v served ports ≡ ok (settings, all_ports)
      → AreRead d (published_keys v.bundled faucet secure) all_ports
  unfolding with_tls
  with_tls-AreRead d served ports a same h = elim (Bool-cases (v.bundled && secure)) [
    | inl on ↦
        let (n, at_n, h1) = bind_ok (port_at "https_port" served) _ (rw on at h) in
        let (secured, _, h2) = bind_ok (certificates host served) _ h1 in
        let found = read_port "https_port" served (same ∙ https_there d) at_n in
        subst (λ r. AreRead d (published_keys v.bundled faucet secure) r.1) (ok-injective h2)
          (with_port v.bundled secure n on a found)
    | inr off ↦
        let (_, h1) = refuse_ok _ _ _ (rw off at h) in
        subst (λ r. AreRead d (published_keys v.bundled faucet secure) r.1) (ok-injective h1)
          (without_port v.bundled secure off a)
  ]
    where
      with_port :
          (bundled https : Bool) (n : ℕ)
          → (bundled && https) ≡ true
          → AreRead d (more_keys bundled faucet) ports
          → chosen "https_port" (nat 28443) d ≡ nat n
          → AreRead d (published_keys bundled faucet https) (ports ++ (n ∷ []))
      with_port true true n on a found =
          AreRead-snoc d (base_keys true) ports "https_port" 28443 n a found
      with_port true false n on a found = cc
      with_port false https n on a found = cc

      without_port :
          (bundled https : Bool)
          → (bundled && https) ≡ false
          → AreRead d (more_keys bundled faucet) ports
          → AreRead d (published_keys bundled faucet https) ports
      without_port true true off a = cc
      without_port true false off a = a
      without_port false https off a = a
