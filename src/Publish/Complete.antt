-- ===== src/Publish/Complete.antt =====
-- What `release_assets` of explorer/publish_release.py accepts.
use usdb_explorer.Prelude.{
  ◌≡◌, refl, sym, ap, subst, ◌∙◌, inl, inr, ℕ, ◌≤◌, ◌<◌, String, Bool, true, false, ◌&&◌, ◌||◌,
  ◌==◌, leb, List, [], ◌∷◌, In, all, any, contains, length, arith, Bool-cases, eq_iff,
  if◌then◌else◌,
}
use usdb_explorer.Prelude.Int.{pos}
use usdb_explorer.Python.Value.{Value, Items, str, int, nat, arr, nil, truthy, equal, elements}
use usdb_explorer.Python.Exn.{
  Exn, Result, ok, raise, get, get_or, each, bind_ok, require_ok, required_true,
}
use usdb_explorer.Python.Exn.Loops.{ok-injective, In-each, each-In}
use usdb_explorer.Python.Regex.{full_match}
use usdb_explorer.Python.Order.Sorting.{In-sort}
use mathlib.Core.List.{map}
use usdb_explorer.Publish.{
  Asset, asset_names, positive, text_of, digest_of, digest_re, incomplete, mismatch, positive_entry,
  digest_entry, uploaded, listed_assets, read_asset, is_one_of, is_text, names_match, list_of,
  lt_name, check_release, distinct_ids, release_assets, max_asset_bytes, is_true,
}

-- What the API lists, as an asset that was uploaded in full, within the bound, with a digest.
pub record IsUploaded (listed : Value) (a : Asset) : Type 0 where
  pub state : get listed "state" ≡ ok (str "uploaded")
  pub of_id : get listed "id" ≡ ok (nat a.id)
  pub of_name : get listed "name" ≡ ok (str a.name)
  pub of_size : get listed "size" ≡ ok (nat a.size)
  pub of_digest : get listed "digest" ≡ ok (str a.digest)
  pub positive_id : 0 < a.id
  pub positive_size : 0 < a.size
  pub bounded : a.size ≤ max_asset_bytes
  pub digested : full_match digest_re a.digest ≡ true

positive_sound :
    (v : Value) (message : String) {n : ℕ} → positive v message ≡ ok n → (v ≡ nat n) × (0 < n)
unfolding positive
positive_sound (int (pos n)) message {n = m} h =
    let same : n ≡ m = ground arith in (ap nat same, ground arith)
positive_sound _ message h = cc

never : {A : Type 0} (b : Bool) (e f : Exn) {x : A} → (if b then raise e else raise f) ≡ ok x → ⊥
never true e f h = cc
never false e f h = cc

text_of_sound : (v : Value) (message : String) {s : String} → text_of v message ≡ ok s → v ≡ str s
text_of_sound (str s) message h = ap str (ok-injective h)
text_of_sound _ message h = cc

digest_of_sound :
    (v : Value) (message : String) {s : String}
    → digest_of v message ≡ ok s
    → (v ≡ str s) × (full_match digest_re s ≡ true)
unfolding digest_of
digest_of_sound (str s) message {s = t} h =
    let same : s ≡ t = ground arith in (ap str same, ground arith)
digest_of_sound v message h = absurd (never (truthy v) _ _ h)

positive_entry_sound :
    (v : Value) (key : String) {n : ℕ}
    → positive_entry v key ≡ ok n
    → (get v key ≡ ok (nat n)) × (0 < n)
unfolding positive_entry
positive_entry_sound v key h =
    let (w, at_w, h1) = bind_ok (get v key) _ h in
    let (same, positive) = positive_sound w incomplete h1 in (at_w ∙ ap ok same, positive)

digest_entry_sound :
    (v : Value) {s : String}
    → digest_entry v ≡ ok s
    → (get v "digest" ≡ ok (str s)) × (full_match digest_re s ≡ true)
unfolding digest_entry
digest_entry_sound v h =
    let (w, at_w, h1) = bind_ok (get v "digest") _ h in
    let (same, good) = digest_of_sound w incomplete h1 in (at_w ∙ ap ok same, good)

equal_text : (v : Value) (s : String) → equal v (str s) ≡ true → v ≡ str s
unfolding equal
equal_text (str t) s h = ap str ((eq_iff t s).0 h)
equal_text _ s h = cc

uploaded_sound :
    (v : Value) {u : Unit {0}} → uploaded v ≡ ok u → get v "state" ≡ ok (str "uploaded")
unfolding uploaded
uploaded_sound v h =
    let (w, at_w, h1) = bind_ok (get v "state") _ h in
    at_w ∙ ap ok (equal_text w "uploaded" (required_true _ _ h1))

read_asset-IsUploaded : (v : Value) {a : Asset} → read_asset v ≡ ok a → IsUploaded v a
unfolding read_asset
read_asset-IsUploaded v h =
    let (id, at_id, h1) = bind_ok (positive_entry v "id") _ h in
    let (_, at_state, h2) = bind_ok (uploaded v) _ h1 in
    let (size, at_size, h3) = bind_ok (positive_entry v "size") _ h2 in
    let (small, h4) = require_ok (leb size max_asset_bytes) _ _ h3 in
    let (digest, at_digest, h5) = bind_ok (digest_entry v) _ h4 in
    let (w, at_w, h6) = bind_ok (get v "name") _ h5 in
    let (name, at_name, h7) = bind_ok (text_of w mismatch) _ h6 in
    let (of_id, positive_id) = positive_entry_sound v "id" at_id in
    let (of_size, positive_size) = positive_entry_sound v "size" at_size in
    let (of_digest, digested) = digest_entry_sound v at_digest in
    subst (IsUploaded v) (ok-injective h7) (record {
      state = uploaded_sound v at_state;
      of_id = of_id;
      of_name = at_w ∙ ap ok (text_of_sound w mismatch at_name);
      of_size = of_size;
      of_digest = of_digest;
      positive_id = positive_id;
      positive_size = positive_size;
      bounded = ground arith;
      digested = digested;
    })

holds_each :
    {A : Type 0} (p : A → Bool) (xs : List A) {x : A} → all p xs ≡ true → In x xs → p x ≡ true
holds_each p [] h i = elim i [ ]
holds_each p (y ∷ xs) h (inl e) = subst (λ z. p z ≡ true) (sym e) (ground arith)
holds_each p (y ∷ xs) h (inr i) = holds_each p xs (ground arith) i

member_such :
    {A : Type 0} (p : A → Bool) (xs : List A) → any p xs ≡ true → (x : A) × In x xs × (p x ≡ true)
member_such p [] h = cc
member_such p (x ∷ xs) h = elim (Bool-cases (p x)) [
  | inl yes_x ↦ (x, inl refl, yes_x)
  | inr no_x ↦ let (y, i, yes_y) = member_such p xs (ground arith) in (y, inr i, yes_y)
]

each-all :
    {A B : Type 0} (f : A → Result B) (xs : List A) {ys : List B} {x : A}
    → each f xs ≡ ok ys
    → In x xs
    → (y : B) × (f x ≡ ok y) × In y ys
unfolding each
each-all f [] h i = elim i [ ]
each-all f (z ∷ xs) {x = x} h i =
    let (y, first, h1) = bind_ok (f z) _ h in
    let (ys, loop, h2) = bind_ok (each f xs) _ h1 in
    elim i [
      | inl e ↦ (y, ap f e ∙ first, subst (In y) (ok-injective h2) (inl refl))
      | inr j ↦
          let (w, at, k) = each-all f xs loop j in (w, at, subst (In w) (ok-injective h2) (inr k))
    ]

text_is : (name : String) (v : Value) → is_text name v ≡ true → v ≡ str name
text_is name (str s) h = ap str ((eq_iff s name).0 h)
text_is name _ h = cc

list_of_sound :
    (v : Value) {vs : List Value}
    → list_of v ≡ ok vs
    → (items : Items) × (v ≡ arr items) × (elements items ≡ vs)
list_of_sound (arr items) h = (items, refl, ok-injective h)
list_of_sound _ h = cc

names_of :
    (release : Value) (release_id : String) (names : List String) {assets : List Value}
    → listed_assets release release_id names ≡ ok assets
    → (items : Items) × (get_or release "assets" (arr nil) ≡ ok (arr items))
      × (elements items ≡ assets)
      × (found : List Value) × (each (λ asset. get asset "name") assets ≡ ok found)
      × (names_match found names ≡ true)
unfolding listed_assets
names_of release release_id names {assets} h =
    let (listed, at_listed, h1) = bind_ok (get_or release "assets" (arr nil)) _ h in
    let (draft, _, h2) = bind_ok (check_release release release_id) _ h1 in
    let (vs, at_vs, h3) = bind_ok (list_of listed) _ h2 in
    let (items, is, same) = list_of_sound listed at_vs in
    let (_, h4) = require_ok (length vs == length names) _ _ h3 in
    let (found, at_found, h5) = bind_ok (each (λ asset. get asset "name") vs) _ h4 in
    let (match, h6) = require_ok (names_match found names) _ _ h5 in
    let (prerelease, _, h7) = bind_ok (get release "prerelease") _ h6 in
    let (_, h8) = require_ok (draft || is_true prerelease) _ _ h7 in
    (
      items,
      at_listed ∙ ap ok is,
      same ∙ ok-injective h8,
      found,
      subst (λ ws. each (λ asset. get asset "name") ws ≡ ok found) (ok-injective h8) at_found,
      match,
    )

both_left : (a b : Bool) → a && b ≡ true → a ≡ true
both_left a b h = ground arith

both_right : (a b : Bool) → a && b ≡ true → b ≡ true
both_right a b h = ground arith

str-injective : {s t : String} → str s ≡ str t → s ≡ t
str-injective h = cc

-- The whole publication of a release: each of its names as an asset that it lists as uploaded, and
-- no asset of another name.
pub record IsComplete (release : Value) (names : List String) (assets : List Asset) : Type 0 where
  pub items : Items
  pub of_items : get_or release "assets" (arr nil) ≡ ok (arr items)
  pub uploaded : (a : Asset) → In a assets → (v : Value) × In v (elements items) × IsUploaded v a
  pub known : (a : Asset) → In a assets → contains names a.name ≡ true
  pub complete : (name : String) → In name names → (a : Asset) × In a assets × (a.name ≡ name)

-- The assets that are accepted are the whole publication of the tag: exactly its names, each listed
-- by the release as uploaded, within the bound and with a digest.
pub release_assets-IsComplete :
    (release : Value) (release_id : String) (structured_notes : Bool) {assets : List Asset}
    → release_assets release release_id structured_notes ≡ ok assets
    → IsComplete release (asset_names release_id structured_notes) assets
unfolding release_assets names_match
release_assets-IsComplete release release_id structured_notes {assets} h =
    let names = asset_names release_id structured_notes in
    let (vs, at_vs, h1) = bind_ok (listed_assets release release_id names) _ h in
    let (read, at_read, h2) = bind_ok (each read_asset vs) _ h1 in
    let (_, h3) = require_ok (distinct_ids (map (λ asset. asset.id) read)) _ _ h2 in
    let (items, of_items, same, found, at_found, match) = names_of release release_id names at_vs in
    subst (IsComplete release names) (ok-injective h3) (record {
      items = items;
      of_items = of_items;
      uploaded = λ a i.
          let (v, j, at_a) = In-each read_asset vs at_read ((In-sort lt_name a read).0 i) in
          (v, subst (In v) (sym same) j, read_asset-IsUploaded v at_a);
      known = λ a i.
          let (v, j, at_a) = In-each read_asset vs at_read ((In-sort lt_name a read).0 i) in
          holds_each (is_one_of names) found (both_left (all (is_one_of names) found) _ match) (
            each-In (λ asset. get asset "name") vs at_found j
              (read_asset-IsUploaded v at_a).of_name);
      complete = λ name i.
          let one =
            holds_each (λ n. any (is_text n) found) names
              (both_right (all (is_one_of names) found) _ match) i in
          let (v, j, is) = member_such (is_text name) found one in
          let (w, k, at_v) = In-each (λ asset. get asset "name") vs at_found j in
          let (a, at_a, m) = each-all read_asset vs at_read k in
          (
            a,
            (In-sort lt_name a read).1 m,
            str-injective (
                ok-injective (sym (read_asset-IsUploaded w at_a).of_name ∙ at_v)
                ∙ text_is name v is),
          );
    })
