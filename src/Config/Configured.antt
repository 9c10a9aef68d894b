-- ===== src/Config/Configured.antt =====
-- The `ingress` that explorer/public_config.py accepts is the one that is configured.
use usdb_explorer.Prelude.{
  String, ◌≡◌, refl, sym, ap, subst, ◌∙◌, inl, inr, Bool, true, false, if◌then◌else◌, ◌||◌, ◌==◌,
  ◌=s◌, All, none, some, Bool-cases, Option-cases, eq_iff, some-injective,
}
use usdb_explorer.Python.Value.{Value, Fields, obj, str, lookup, assign, lookup-assign}
use usdb_explorer.Python.Exn.{Result, ok, bind_ok, require_ok, subscript}
use usdb_explorer.Python.Exn.Loops.{ok-injective}
use usdb_explorer.Python.Text.{rstrip_code}
use usdb_explorer.Faucet.{set_default}
use usdb_explorer.Config.{fields, endpoint}
use usdb_explorer.Config.Settings.{chosen, fields-obj, subscript-lookup, lookup-set_default}
use usdb_explorer.Config.Ingress.{
  Host, Visit, Address, Ingress, one_of, read_visit, ipv6_binding, bind_ipv4, bind_ipv6, set_ports,
  default_ports, check_exposure, distinct_ports, load_ingress, listed_ports, with_faucet, with_tls,
  text_of,
}
use usdb_explorer.Config.Published.{
  AreRead, published_keys, set_ports-defaults, listed_ports-AreRead, with_faucet-AreRead,
  AreRead-same, with_tls-AreRead,
}

one_of_sound :
    (first second message : String) (v : Value) {b : Bool}
    → one_of first second message v ≡ ok b
    → v ≡ str (if b then first else second)
unfolding one_of
one_of_sound first second message (str s) {b} h = elim (Bool-cases (s =s first)) [
  | inl is_first ↦
      let chosen_first : true ≡ b = ok-injective (rw is_first at h) in
      subst (λ c. str s ≡ str (if c then first else second)) chosen_first
        (ap str ((eq_iff s first).0 is_first))
  | inr not_first ↦ elim (Bool-cases (s =s second)) [
    | inl is_second ↦
        let chosen_second : false ≡ b = ok-injective (rw (not_first, is_second) at h) in
        subst (λ c. str s ≡ str (if c then first else second)) chosen_second
          (ap str ((eq_iff s second).0 is_second))
    | inr not_second ↦ cc (rw (not_first, not_second) at h)
  ]
]
one_of_sound first second message _ h = cc

module _ (host : Host) where
  -- What the first lines have read of the ingress.
  pub record IsRead (value : Value) (v : Visit) : Type 0 where
    pub given : Fields
    pub of_given : value ≡ obj given
    pub mode : lookup "mode" given ≡ some (str (if v.bundled then "bundled" else "external"))
    pub exposure :
        chosen "exposure" (str "private") given ≡ str (if v.public then "public" else "private")
    pub url : Value
    pub of_url : lookup "explorer_url" given ≡ some url
    pub origin : endpoint host.urlsplit url true ≡ ok v.origin
    pub settings :
        v.settings
        ≡ assign "explorer_url"
            (str (rstrip_code b'/' (text_of url)))
            (set_default "exposure" (str "private") given)

  read_visit-IsRead : (value : Value) {v : Visit} → read_visit host value ≡ ok v → IsRead value v
  unfolding read_visit
  read_visit-IsRead value h =
      let (given, at_given, h1) = bind_ok (fields value _ _) _ h in
      let (mode, at_mode, h2) = bind_ok (subscript (obj given) "mode") _ h1 in
      let (bundled, is_mode, h3) =
        bind_ok (one_of "bundled" "external" "ingress.mode must be external or bundled" mode) _
          h2 in
      let (exposure, at_exposure, h4) =
        bind_ok (subscript (obj (set_default "exposure" (str "private") given)) "exposure") _ h3 in
      let (public, is_exposure, h5) =
        bind_ok (one_of "public" "private" "ingress.exposure must be private or public" exposure) _
          h4 in
      let (url, at_url, h6) = bind_ok (subscript (obj given) "explorer_url") _ h5 in
      let (origin, at_origin, h7) = bind_ok (endpoint host.urlsplit url true) _ h6 in
      subst (IsRead value) (ok-injective h7) (record {
        given = given;
        of_given = fields-obj value _ _ at_given;
        mode = subscript-lookup given "mode" at_mode ∙ ap some (one_of_sound _ _ _ mode is_mode);
        exposure =
            some-injective (
              sym (lookup-set_default "exposure" (str "private") given "exposure")
              ∙ subscript-lookup _ "exposure" at_exposure)
            ∙ one_of_sound _ _ _ exposure is_exposure;
        url = url;
        of_url = subscript-lookup given "explorer_url" at_url;
        origin = at_origin;
        settings = refl;
      })

  -- The other keys are as they were given.
  kept_settings :
      (value : Value) (v : Visit) (r : IsRead value v) (key : String)
      → ("explorer_url" =s key) ≡ false
      → ("exposure" =s key) ≡ false
      → lookup key v.settings ≡ lookup key r.given
  kept_settings value v r key p q =
      ap (lookup key) r.settings
      ∙ (lookup-assign "explorer_url" key _ _
          ∙ rw p (lookup-set_default "exposure" (str "private") r.given key ∙ rw q refl))

  kept_ipv6 :
      (v : Visit) (settings : Fields) (key : String) {bound : Fields}
      → ("bind_address_ipv6" =s key) ≡ false
      → bind_ipv6 host v settings ≡ ok bound
      → lookup key bound ≡ lookup key settings
  unfolding bind_ipv6
  kept_ipv6 v settings key differ h = elim (Option-cases (lookup "bind_address_ipv6" settings)) [
    | inl missing ↦ ap (lookup key) (sym (ok-injective (rw (missing, bind_ipv6) at h)))
    | inr (given, there) ↦
        let (_, h1) = require_ok v.bundled _ _ (rw (there, bind_ipv6) at h) in
        let (shown, _, h2) = bind_ok (ipv6_binding host given v.public) _ h1 in
        ap (lookup key) (sym (ok-injective h2))
        ∙ (lookup-assign "bind_address_ipv6" key (str shown) settings ∙ rw differ refl)
  ]

-- The ingress has the mode, the exposure and the origin that are configured, and it listens on the
-- configured address and on the configured ports, where there is no setting on the defaults.
pub record IsConfigured (host : Host) (faucet : Bool) (value : Value) (ingress : Ingress)
    : Type 0 where
  pub given : Fields
  pub of_given : value ≡ obj given
  pub mode :
      lookup "mode" given ≡ some (str (if ingress.visit.bundled then "bundled" else "external"))
  pub exposure :
      chosen "exposure" (str "private") given
      ≡ str (if ingress.visit.public then "public" else "private")
  pub url : Value
  pub of_url : lookup "explorer_url" given ≡ some url
  pub origin : endpoint host.urlsplit url true ≡ ok ingress.visit.origin
  pub address : host.ip_address (chosen "bind_address" (str "127.0.0.1") given) ≡ ok ingress.address
  pub ports :
      AreRead given
        (published_keys ingress.visit.bundled faucet (ingress.visit.origin.scheme =s "https"))
        ingress.ports

bind_ipv4-address :
    (host : Host) (v : Visit) {address : Address}
    → bind_ipv4 host v ≡ ok address
    → host.ip_address (chosen "bind_address" (str "127.0.0.1") v.settings) ≡ ok address
unfolding bind_ipv4
bind_ipv4-address host v h =
    let (given, at_given, h1) = bind_ok (subscript (obj _) "bind_address") _ h in
    let (found, at_found, h2) = bind_ok (host.ip_address given) _ h1 in
    let (_, h3) = require_ok (found.version == 4) _ _ h2 in
    let (_, h4) = require_ok (v.public || found.is_loopback) _ _ h3 in
    let (_, h5) = require_ok (v.bundled || found.is_loopback) _ _ h4 in
    let is_given = some-injective (
      sym (lookup-set_default "bind_address" (str "127.0.0.1") v.settings "bind_address")
      ∙ subscript-lookup _ "bind_address" at_given) in
    ap host.ip_address is_given ∙ (at_found ∙ ap ok (ok-injective h5))

module _ (d given : Fields) where
  published_kept :
      (bundled faucet https : Bool)
      → lookup "http_port" d ≡ lookup "http_port" given
      → lookup "https_port" d ≡ lookup "https_port" given
      → lookup "web_port" d ≡ lookup "web_port" given
      → lookup "gateway_port" d ≡ lookup "gateway_port" given
      → lookup "faucet_port" d ≡ lookup "faucet_port" given
      → All (λ k. lookup k.0 d ≡ lookup k.0 given) (published_keys bundled faucet https)
  published_kept true faucet true h s w g f = (h, (s, tt))
  published_kept true faucet false h s w g f = (h, tt)
  published_kept false true https h s w g f = (w, (g, (f, tt)))
  published_kept false false https h s w g f = (w, (g, tt))

-- An accepted ingress is the configured one.
pub load_ingress-IsConfigured :
    (host : Host) (network : Value) (faucet : Bool) (lock : Result Value) (value : Value)
    {ingress : Ingress}
    → load_ingress host network faucet lock value ≡ ok ingress
    → IsConfigured host faucet value ingress
unfolding load_ingress
load_ingress-IsConfigured host network faucet lock value h =
    let (visit, at_visit, h1) = bind_ok (read_visit host value) _ h in
    let (address, at_address, h2) = bind_ok (bind_ipv4 host visit) _ h1 in
    let bound_from = set_default "bind_address" (str "127.0.0.1") visit.settings in
    let (bound, at_bound, h3) = bind_ok (bind_ipv6 host visit bound_from) _ h2 in
    let (_, _, h4) = bind_ok (check_exposure visit network lock) _ h3 in
    let (ported, at_ported, h5) = bind_ok (set_ports default_ports bound) _ h4 in
    let (base, at_base, h6) = bind_ok (listed_ports visit.bundled ported) _ h5 in
    let ((served, more), at_more, h7) =
      bind_ok (with_faucet faucet visit.bundled ported base) _ h6 in
    let ((settings, ports), at_ports, h8) = bind_ok (with_tls host visit served more) _ h7 in
    let (_, h9) = require_ok (distinct_ports ports) _ _ h8 in
    let r = read_visit-IsRead host value at_visit in
    let is_ported = sym (set_ports-defaults bound at_ported) in
    let base_read =
      listed_ports-AreRead visit.bundled bound
        (subst (λ d. listed_ports visit.bundled d ≡ ok base) is_ported at_base) in
    let (more_read, same) = with_faucet-AreRead faucet visit.bundled bound base base_read (
      subst (λ d. with_faucet faucet visit.bundled d base ≡ ok (served, more)) is_ported at_more) in
    let read = with_tls-AreRead host visit faucet bound served more more_read same at_ports in
    let kept : (key : String)
        → ("explorer_url" =s key) ≡ false
        → ("exposure" =s key) ≡ false
        → ("bind_address" =s key) ≡ false
        → ("bind_address_ipv6" =s key) ≡ false
        → lookup key bound ≡ lookup key r.given =
      λ key p q b c.
        kept_ipv6 host visit bound_from key c at_bound
        ∙ (lookup-set_default "bind_address" (str "127.0.0.1") visit.settings key
            ∙ (rw b refl ∙ kept_settings host value visit r key p q)) in
    subst (IsConfigured host faucet value) (ok-injective h9) (record {
      given = r.given;
      of_given = r.of_given;
      mode = r.mode;
      exposure = r.exposure;
      url = r.url;
      of_url = r.of_url;
      origin = r.origin;
      address =
          ap (λ o. host.ip_address (elim o [ none ↦ str "127.0.0.1" | some x ↦ x ]))
            (sym (kept_settings host value visit r "bind_address" refl refl))
          ∙ bind_ipv4-address host visit at_address;
      ports =
          AreRead-same bound r.given _ ports
            (published_kept bound r.given visit.bundled faucet (visit.origin.scheme =s "https")
              (kept "http_port" refl refl refl refl) (kept "https_port" refl refl refl refl)
              (kept "web_port" refl refl refl refl) (kept "gateway_port" refl refl refl refl)
              (kept "faucet_port" refl refl refl refl))
            read;
    })
