-- ===== src/Reach/Targets.antt =====
-- The paths that `ingress_targets` of explorer/ingress_checks.py finds.
use usdb_explorer.Prelude.{
  String, ◌≡◌, sym, ap, inl, inr, true, if◌then◌else◌, not, ◌=s◌, List, [], ◌∷◌, ◌++◌, Bool-cases,
}
use usdb_explorer.Python.Value.{Value, str}
use usdb_explorer.Python.Exn.{ok, bind_ok, get_or, subscript}
use usdb_explorer.Python.Exn.Loops.{ok-injective}
use usdb_explorer.Python.Text.{rstrip_code}
use usdb_explorer.Config.{Url, endpoint}
use usdb_explorer.Config.Ingress.{Host}
use usdb_explorer.Reach.{
  Target, skip, Discovered, configured, ipv6_targets, bundled_targets, ingress_targets, text_of,
  is_bundled, external_reason,
}

module _ (h : Host) (discovered discovered_ipv6 : Discovered) where
  -- The path of the visitors is among the targets, and it is the last one.
  abbrev pub EndsConfigured : List Target → Type 0
  EndsConfigured targets =
      (before : List Target) × (origin : String) × (targets ≡ before ++ (configured origin ∷ []))

  bundled_targets-EndsConfigured :
      (ingress : Value) (origin : String) (url : Url) {targets : List Target}
      {warnings : List String}
      → bundled_targets h discovered discovered_ipv6 ingress origin url ≡ ok (targets, warnings)
      → EndsConfigured targets
  unfolding bundled_targets
  bundled_targets-EndsConfigured ingress origin url e =
      let (given, _, h1) = bind_ok (get_or ingress "bind_address" (str "127.0.0.1")) _ e in
      let (bind, _, h2) = bind_ok (h.ip_address given) _ h1 in
      let (port, _, h3) = bind_ok (if url.scheme =s "https" then _ else _) _ h2 in
      let (given6, _, h4) = bind_ok (get_or ingress "bind_address_ipv6" _) _ h3 in
      let ((more, more_warnings), _, h5) =
        bind_ok (ipv6_targets h discovered discovered_ipv6 _ given6) _ h4 in
      (_, origin, sym (ap (λ p. p.0) (ok-injective h5)))

  -- Each way to find the targets ends with the path of the visitors.
  pub ingress_targets-EndsConfigured :
      (config : Value) {targets : List Target} {warnings : List String}
      → ingress_targets h discovered discovered_ipv6 config ≡ ok (targets, warnings)
      → EndsConfigured targets
  unfolding ingress_targets
  ingress_targets-EndsConfigured config e =
      let (ingress, _, h1) = bind_ok (subscript config "ingress") _ e in
      let (url_given, _, h2) = bind_ok (subscript ingress "explorer_url") _ h1 in
      let (given, _, h3) = bind_ok (text_of url_given) _ h2 in
      let (url, _, h4) = bind_ok (endpoint h.urlsplit (str (rstrip_code b'/' given)) true) _ h3 in
      let (mode, _, h5) = bind_ok (subscript ingress "mode") _ h4 in
      elim (Bool-cases (not (is_bundled mode))) [
        | inl e ↦ (
          skip "loopback" external_reason ∷ skip "lan" external_reason ∷ [],
          rstrip_code b'/' given,
          sym (ap (λ p. p.0) (ok-injective (rw e at h5))),
        )
        | inr e ↦ bundled_targets-EndsConfigured ingress (rstrip_code b'/' given) url (rw e at h5)
      ]
