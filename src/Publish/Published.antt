-- ===== src/Publish/Published.antt =====
-- What `promote` of explorer/publish_release.py guarantees.
use usdb_explorer.Prelude.{
  ◌≡◌, refl, ap, subst, ◌∙◌, ℕ, String, ◌<>◌, Bool, true, false, not, ◌&&◌, ◌=s◌, ◌==◌, List, [],
  ◌∷◌, In, All, arith, eq_iff,
}
use usdb_explorer.Python.Value.{Value, bool, nat, equal}
use usdb_explorer.Python.Exn.Loops.{ok-injective}
use usdb_explorer.Python.Exn.{
  get, subscript, Result, ok, raise, value_error, key_error, type_error, attribute_error, os_error,
  process_error, rpc_failure,
}
use usdb_explorer.Rpc.Calls.{
  done, lift, check, attempt, for_each, bind_done, next_done, lift_done, check_done, for_each_done,
  pure_done, attempt_done,
}
use usdb_explorer.Rpc.Guard.{
  Keeps, bind-Keeps, next-Keeps, pure-Keeps, lift-Keeps, check-Keeps, attempt-Keeps, for_each-Keeps,
}
use usdb_explorer.Publish.{is_true, Asset, release_assets, asset_names}
use usdb_explorer.Publish.Complete.{IsComplete, release_assets-IsComplete}
use usdb_explorer.Publish.Promotion.{
  GitHub, Inspection, structured, same_assets, same_release, endpoint_of, url_of, check_download,
  publish, check_published, as_published, promote,
}

size_is : (m n : ℕ) (b : Bool) → (m == n) && b ≡ true → m ≡ n
size_is m n b h = ground arith

both_left : (a b : Bool) → a && b ≡ true → a ≡ true
both_left a b h = ground arith

both_right : (a b : Bool) → a && b ≡ true → b ≡ true
both_right a b h = ground arith

as_published_ok : (r : Result (Unit {0})) → as_published r ≡ ok tt → r ≡ ok tt
as_published_ok (ok a) h = refl
as_published_ok (raise (value_error m)) h = cc
as_published_ok (raise (key_error m)) h = cc
as_published_ok (raise type_error) h = cc
as_published_ok (raise attribute_error) h = cc
as_published_ok (raise (os_error m)) h = cc
as_published_ok (raise process_error) h = cc
as_published_ok (raise (rpc_failure c m)) h = cc

every : {A : Type 0} (xs : List A) → All (λ _. Unit {0}) xs
every [] = tt
every (x ∷ xs) = (tt, every xs)

-- The public release is the approved one: no draft, a pre-release, and with its id, title and notes.
pub record IsApproved (published : Value) (result : Inspection) : Type 0 where
  pub draft : Value
  pub of_draft : subscript published "draft" ≡ ok draft
  pub public : equal draft (bool false) ≡ true
  pub prerelease : get published "prerelease" ≡ ok (bool true)
  pub id : Value
  pub of_id : subscript published "id" ≡ ok id
  pub same_id : equal id (nat result.release_database_id) ≡ true
  pub title : Value
  pub of_title : get published "name" ≡ ok title
  pub same_title : equal title result.title ≡ true
  pub body : Value
  pub of_body : get published "body" ≡ ok body
  pub same_body : equal body result.body ≡ true

case_ok :
    {A B : Type 0} (r : Result A) (next : A → Result B) {y : B}
    → elim r [ raise e ↦ raise e | ok x ↦ next x ] ≡ ok y
    → (x : A) × (r ≡ ok x) × (next x ≡ ok y)
case_ok (raise e) next h = cc
case_ok (ok x) next h = (x, refl, h)

is_true_sound : (v : Value) → is_true v ≡ true → v ≡ bool true
is_true_sound (bool true) h = refl
is_true_sound (bool false) h = cc
is_true_sound _ h = cc

same_release-IsApproved :
    (published : Value) (result : Inspection)
    → same_release published result ≡ ok true
    → IsApproved published result
unfolding same_release
same_release-IsApproved published result h =
    let (draft, of_draft, h1) = case_ok (subscript published "draft") _ h in
    let (prerelease, of_prerelease, h2) = case_ok (get published "prerelease") _ h1 in
    let (id, of_id, h3) = case_ok (subscript published "id") _ h2 in
    let (title, of_title, h4) = case_ok (get published "name") _ h3 in
    let (body, of_body, h5) = case_ok (get published "body") _ h4 in
    let all_true = ok-injective h5 in
    record {
      draft = draft;
      of_draft = of_draft;
      public = ground arith;
      prerelease = of_prerelease ∙ ap ok (is_true_sound prerelease (ground arith));
      id = id;
      of_id = of_id;
      same_id = ground arith;
      title = title;
      of_title = of_title;
      same_title = ground arith;
      body = body;
      of_body = of_body;
      same_body = ground arith;
    }

module _ {W : Type 0} (api : GitHub W) where
  -- The file under the public URL of the asset has its size and its digest.
  abbrev pub IsDownloaded : Inspection → Asset → Type 0
  IsDownloaded result asset =
      (v z : W) × (digest : String) × (api.download (url_of result asset) v
        ≡ done (asset.size, digest) z)
      × ("sha256:" <> digest ≡ asset.digest)

  -- A promotion that returned: the fingerprint is the approved one, the release that is read back is
  -- public, with the approved id, title and notes, it is complete and has the approved assets, and each of them can be downloaded.
  pub record IsPromoted (result : Inspection) (expected : String) : Type 0 where
    pub approved : result.fingerprint ≡ expected
    pub published : Value
    pub read_back : (u v : W) × (api.read (endpoint_of result) u ≡ done published v)
    pub as_approved : IsApproved published result
    pub assets : List Asset
    pub complete : IsComplete published (asset_names result.release_id (structured result)) assets
    pub same : same_assets assets result.assets ≡ true
    pub downloaded : (asset : Asset) → In asset assets → IsDownloaded result asset

  check_download-IsDownloaded :
      (result : Inspection) (asset : Asset) (v : W) {z : W}
      → check_download api result asset v ≡ done tt z
      → IsDownloaded result asset
  unfolding check_download
  check_download-IsDownloaded result asset v h =
      let (file, z, got, h1) = bind_done (api.download (url_of result asset)) _ v h in
      let right =
        check_done ((file.0 == asset.size) && (("sha256:" <> file.1) =s asset.digest)) _ z h1 in
      (
        v,
        z,
        file.1,
        got ∙ ap (λ n. done (n, file.1) z) (size_is file.0 asset.size _ right),
        (eq_iff ("sha256:" <> file.1) asset.digest).0 (both_right (file.0 == asset.size) _ right),
      )

  check_published_sound :
      (result : Inspection) (v : W) {assets : List Asset} {z : W}
      → check_published api result v ≡ done assets z
      → (published : Value) × ((u w : W) × (api.read (endpoint_of result) u ≡ done published w))
        × IsApproved published result
        × IsComplete published (asset_names result.release_id (structured result)) assets
        × (same_assets assets result.assets ≡ true)
  unfolding check_published
  check_published_sound result v h =
      let (published, v1, served, h1) = bind_done (api.read (endpoint_of result)) _ v h in
      let (assets, v2, at_assets, h2) =
        bind_done (lift (release_assets published result.release_id (structured result))) _ v1 h1 in
      let (same, v3, at_same, h3) = bind_done (lift (same_release published result)) _ v2 h2 in
      let (_, v4, checked, h4) =
        next_done (check (same && same_assets assets result.assets) _) _ v3 h3 in
      let right = check_done (same && same_assets assets result.assets) _ v3 checked in
      let approved = same_release-IsApproved published result (
        subst (λ b. same_release published result ≡ ok b) (both_left same _ right)
          (lift_done (same_release published result) v2 at_same)) in
      let (complete, equal_assets) =
        subst
          (λ xs.
            IsComplete published (asset_names result.release_id (structured result)) xs
            × (same_assets xs result.assets ≡ true))
          (pure_done assets v4 h4)
          (
            release_assets-IsComplete published result.release_id (structured result) (
                lift_done (release_assets published result.release_id (structured result)) v1
                  at_assets),
            both_right same _ right,
          ) in
      (published, (v, v1, served), approved, complete, equal_assets)

  -- A promotion that returns had the approved fingerprint. The release that it read back is public, a
  -- pre-release with the approved id, title and notes, complete and with the approved assets, and each
  -- of them was downloaded with its size and digest.
  pub promote-IsPromoted :
      (result : Inspection) (expected : String) (u : W) {w : W}
      → promote api result expected u ≡ done tt w
      → IsPromoted result expected
  unfolding promote
  promote-IsPromoted result expected u h =
      let (_, v1, checked, h1) =
        next_done (check (not (expected =s "") && (result.fingerprint =s expected)) _) _ u h in
      let approval =
        check_done (not (expected =s "") && (result.fingerprint =s expected)) _ u checked in
      let (_, v2, _, h2) = next_done (publish api result) _ v1 h1 in
      let (assets, v3, at_assets, h3) = bind_done (check_published api result) _ v2 h2 in
      let (r, v4, ran, h4) =
        bind_done (attempt (for_each (check_download api result) assets)) _ v3 h3 in
      let fine = as_published_ok r (lift_done (as_published r) v4 h4) in
      let loop = attempt_done (for_each (check_download api result) assets) v3 (
        subst (λ x. attempt (for_each (check_download api result) assets) v3 ≡ done x v4) fine
          ran) in
      let (published, read_back, as_approved, complete, same) =
        check_published_sound result v2 at_assets in
      record {
        approved =
            (eq_iff result.fingerprint expected).0 (both_right (not (expected =s "")) _ approval);
        published = published;
        read_back = read_back;
        as_approved = as_approved;
        assets = assets;
        complete = complete;
        same = same;
        downloaded = λ asset i.
            let (v, z, got) = for_each_done (check_download api result) assets v3 asset loop i in
            check_download-IsDownloaded result asset v got;
      }

  published_already :
      (Inv : W → Type 0) (result : Inspection)
      → result.draft ≡ false
      → Keeps Inv (publish api result)
  unfolding publish
  published_already Inv result public = rw public (pure-Keeps Inv tt)

  -- A rerun on a release that is public changes nothing that reads and downloads keep, whether it
  -- succeeds or raises.
  pub promote-Keeps :
      (Inv : W → Type 0) (result : Inspection) (expected : String)
      → ((url : String) → Keeps Inv (api.read url))
      → ((url : String) → Keeps Inv (api.download url))
      → result.draft ≡ false
      → Keeps Inv (promote api result expected)
  unfolding promote check_published check_download
  promote-Keeps Inv result expected reads downloads public = next-Keeps Inv (check-Keeps Inv _ _) (
      next-Keeps Inv (published_already Inv result public) (
        bind-Keeps Inv
          (bind-Keeps Inv (reads _) (λ published. bind-Keeps Inv (lift-Keeps Inv _) (λ assets.
            bind-Keeps Inv (lift-Keeps Inv _)
              (λ same. next-Keeps Inv (check-Keeps Inv _ _) (pure-Keeps Inv _)))))
          (λ assets.
            bind-Keeps Inv
              (attempt-Keeps Inv (
                for_each-Keeps Inv (λ asset. Unit {0}) (check_download api result) assets
                  (every assets)
                  (λ asset _. bind-Keeps Inv (downloads _) (λ file. check-Keeps Inv _ _))))
              (λ r. lift-Keeps Inv _))))
