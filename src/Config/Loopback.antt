-- ===== src/Config/Loopback.antt =====
-- What `load_config` of explorer/public_config.py has checked of the endpoints of its `rpc`
-- settings.
use usdb_explorer.Prelude.{
  String, ◌≡◌, refl, sym, subst, ◌∙◌, inl, inr, Bool, true, false, not, ◌&&◌, ◌||◌, ◌=s◌, List, [],
  ◌∷◌, In, none, some, Option-cases, some-injective, ◌⊎◌,
}
use usdb_explorer.Python.Value.{Value, Fields, null, obj, str, int, lookup}
use usdb_explorer.Python.Exn.{required_true, Result, ok, bind_ok, require}
use usdb_explorer.Python.Exn.Loops.{ok-injective}
use usdb_explorer.Config.{Url, endpoint}
use usdb_explorer.Config.Upstream.{
  is_loopback, check_url, check_urls, check_indexer, with_defaults, is_height, is_transaction,
  route_keys, load_rpc,
}

-- The setting is an endpoint, of the loopback interface where it has to be.
pub record IsEndpoint (urlsplit : String → Result Url) (local : Bool) (value : Value) : Type 0 where
  pub url : Url
  pub of_url : endpoint urlsplit value false ≡ ok url
  pub at_home : local ≡ true → is_loopback url ≡ true

-- The settings `rpc` of a node, each of which may be missing.
pub record IsChecked (urlsplit : String → Result Url) (local : Bool) (rpc : Fields) : Type 0 where
  pub routes :
      (key : String)
      → In key ("read_url" ∷ "trace_url" ∷ "broadcast_url" ∷ [])
      → (value : Value) → lookup key rpc ≡ some value
      → IsEndpoint urlsplit local value
  pub reference :
      (value : Value) → lookup "reference_url" rpc ≡ some value → IsEndpoint urlsplit false value
  pub indexer :
      (value : Value)
      → lookup "indexer_url" rpc ≡ some value
      → (value ≡ null) ⊎ IsEndpoint urlsplit local value

or_home : (local b : Bool) → (not local || b) ≡ true → local ≡ true → b ≡ true
or_home true b h on = h
or_home false b h on = cc

and_true : (b : Bool) → (b && true) ≡ b
and_true true = refl
and_true false = refl

and_false : (b : Bool) → (b && false) ≡ false
and_false true = refl
and_false false = refl

missed : {v : Value} → none ≡ some v → ⊥
missed h = cc

module _ (urlsplit : String → Result Url) where
  check_url-IsEndpoint :
      (local : Bool) (value : Value) {u : Unit {0}}
      → check_url urlsplit local value ≡ ok u
      → IsEndpoint urlsplit local value
  unfolding check_url
  check_url-IsEndpoint local value h =
      let (url, read, h1) = bind_ok (endpoint urlsplit value false) _ h in
      record {
        url = url;
        of_url = read;
        at_home =
            or_home local (is_loopback url) (required_true (not local || is_loopback url) _ h1);
      }

  check_urls-IsEndpoint :
      (local : Bool) (rpc : Fields) (keys : List String) {u : Unit {0}}
      → check_urls urlsplit local rpc keys ≡ ok u
      → (key : String) → In key keys
      → (value : Value) → lookup key rpc ≡ some value
      → IsEndpoint urlsplit (local && not (key =s "reference_url")) value
  unfolding check_urls
  check_urls-IsEndpoint local rpc [] h key i value at = elim i [ ]
  check_urls-IsEndpoint local rpc (k ∷ more) h key i value at = elim (Option-cases (lookup k rpc)) [
    | inl missing ↦ elim i [
      | inl e ↦ absurd (missed (sym missing ∙ subst (λ k. lookup k rpc ≡ some value) e at))
      | inr j ↦ check_urls-IsEndpoint local rpc more (rw (missing, check_urls) at h) key j value at
    ]
    | inr (found, there) ↦
        let (_, h1, h2) =
          bind_ok (check_url urlsplit (local && not (k =s "reference_url")) found) _
            (rw (there, check_urls) at h) in
        elim i [
          | inl e ↦
              subst (λ k. IsEndpoint urlsplit (local && not (k =s "reference_url")) value) (sym e)
                (subst (λ v. IsEndpoint urlsplit (local && not (k =s "reference_url")) v)
                  (some-injective (sym there ∙ subst (λ k. lookup k rpc ≡ some value) e at))
                  (check_url-IsEndpoint (local && not (k =s "reference_url")) found h1))
          | inr j ↦ check_urls-IsEndpoint local rpc more h2 key j value at
        ]
  ]

  check_indexer-IsEndpoint :
      (local : Bool) (rpc : Fields) {u : Unit {0}}
      → check_indexer urlsplit local rpc ≡ ok u
      → (value : Value) → lookup "indexer_url" rpc ≡ some value
      → (value ≡ null) ⊎ IsEndpoint urlsplit local value
  unfolding check_indexer
  check_indexer-IsEndpoint local rpc h value there = by_value value (rw (there, check_indexer) at h)
    where
      by_value :
          (value : Value)
          → (elim value [ null ↦ ok tt | v ↦ check_url urlsplit local v ]) ≡ ok tt
          → (value ≡ null) ⊎ IsEndpoint urlsplit local value
      by_value (obj x) h = inr (check_url-IsEndpoint local (obj x) h)
      by_value (Value.arr x) h = inr (check_url-IsEndpoint local (Value.arr x) h)
      by_value (str x) h = inr (check_url-IsEndpoint local (str x) h)
      by_value (Value.bool x) h = inr (check_url-IsEndpoint local (Value.bool x) h)
      by_value (int x) h = inr (check_url-IsEndpoint local (int x) h)
      by_value (Value.float x) h = inr (check_url-IsEndpoint local (Value.float x) h)
      by_value null h = inl refl

  routes_at :
      (local : Bool) (rpc : Fields) {u : Unit {0}}
      → check_urls urlsplit local rpc route_keys ≡ ok u
      → (key : String) → In key ("read_url" ∷ "trace_url" ∷ "broadcast_url" ∷ [])
      → (value : Value) → lookup key rpc ≡ some value
      → IsEndpoint urlsplit local value
  routes_at local rpc h key i value at = elim i [
    | inl e ↦ of_name "read_url" (inl refl) (and_true local) e
    | inr (inl e) ↦ of_name "trace_url" (inr (inl refl)) (and_true local) e
    | inr (inr (inl e)) ↦ of_name "broadcast_url" (inr (inr (inl refl))) (and_true local) e
    | inr (inr (inr j)) ↦ elim j [ ]
  ]
    where
      of_name :
          (name : String)
          → In name route_keys
          → (local && not (name =s "reference_url")) ≡ local
          → key ≡ name
          → IsEndpoint urlsplit local value
      of_name name place same e =
          subst (λ b. IsEndpoint urlsplit b value) same
            (check_urls-IsEndpoint local rpc route_keys h name place value
              (subst (λ k. lookup k rpc ≡ some value) e at))

  -- Whatever the settings left out, the routes of an accepted node are endpoints, and those of a
  -- node on this host are of the loopback interface.
  pub load_rpc-IsChecked :
      (value : Value) {local : Bool} {rpc : Fields}
      → load_rpc urlsplit value ≡ ok (local, rpc)
      → IsChecked urlsplit local rpc
  unfolding load_rpc
  load_rpc-IsChecked value {local} {rpc} h =
      let ((on, filled), _, h1) = bind_ok (with_defaults value) _ h in
      let (_, urls, h2) = bind_ok (check_urls urlsplit on filled route_keys) _ h1 in
      let (_, index, h3) = bind_ok (check_indexer urlsplit on filled) _ h2 in
      let (_, _, h4) = bind_ok (require (is_height (lookup "historical_block" filled)) _) _ h3 in
      let (_, _, h5) = bind_ok (require (is_transaction (lookup "transaction" filled)) _) _ h4 in
      subst (λ p. IsChecked urlsplit p.0 p.1) (ok-injective h5)
        (record {
          routes = routes_at on filled urls;
          reference = λ v at.
              subst (λ b. IsEndpoint urlsplit b v) (and_false on)
                (check_urls-IsEndpoint on filled route_keys urls "reference_url"
                  (inr (inr (inr (inl refl)))) v at);
          indexer = check_indexer-IsEndpoint on filled index;
        })
