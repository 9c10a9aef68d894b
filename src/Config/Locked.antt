-- ===== src/Config/Locked.antt =====
-- What `image_lock` of explorer/public_config.py has checked of an accepted lock.
use usdb_explorer.Prelude.{
  String, ◌≡◌, refl, ap, subst, ◌∙◌, inl, inr, Bool, true, false, if◌then◌else◌, ◌&&◌, ◌=s◌, List,
  Option, none, some, In, all, contains, any, arith, Bool-cases, some-injective,
}
use usdb_explorer.Prelude.Members.{contains-In, all-In}
use usdb_explorer.Python.Value.{
  Value, Fields, field, end, obj, arr, str, lookup, has, keys, elements,
}
use usdb_explorer.Python.Exn.{
  ok, raise, Exn, bind_ok, require_ok, refuse_ok, get, get_or, subscript,
}
use usdb_explorer.Python.Exn.Loops.{ok-injective, if_ok}
use usdb_explorer.Python.Regex.{full_match}
use usdb_explorer.Security.{digest_image}
use usdb_explorer.Config.Images.{
  required_images, allowed_images, named_images, refuse_list, is_digest, is_unhashable, is_pinned,
  all_pinned, image_lock,
}

-- The image is a dict whose reference ends with a digest.
pub record IsPinned (item : Value) : Type 0 where
  pub entries : Fields
  pub of_entries : item ≡ obj entries
  pub reference : String
  pub of_reference : lookup "reference" entries ≡ some (str reference)
  pub pinned : full_match digest_image reference ≡ true

-- The lock names every required image and no unknown one, and each of them is pinned.
pub record IsLocked (lock : Value) : Type 0 where
  pub images : Fields
  pub of_images : get_or lock "images" (obj end) ≡ ok (obj images)
  pub complete : (name : String) → In name required_images → has name images ≡ true
  pub known : (name : String) → In name (keys images) → In name allowed_images
  pub are_pinned : (name : String) (item : Value) → lookup name images ≡ some item → IsPinned item

reference_of :
    (o : Option Value)
    → is_digest o ≡ true
    → (s : String) × (o ≡ some (str s)) × (full_match digest_image s ≡ true)
reference_of (some (str s)) h = (s, refl, h)
reference_of (some (obj x)) h = cc
reference_of (some (arr x)) h = cc
reference_of (some (Value.bool x)) h = cc
reference_of (some (Value.int x)) h = cc
reference_of (some (Value.float x)) h = cc
reference_of (some Value.null) h = cc
reference_of none h = cc

is_pinned-IsPinned : (item : Value) → is_pinned item ≡ true → IsPinned item
is_pinned-IsPinned (obj d) h =
    let (s, at, pinned) = reference_of (lookup "reference" d) h in
    record { entries = d; of_entries = refl; reference = s; of_reference = at; pinned = pinned }
is_pinned-IsPinned (arr x) h = cc
is_pinned-IsPinned (str x) h = cc
is_pinned-IsPinned (Value.bool x) h = cc
is_pinned-IsPinned (Value.int x) h = cc
is_pinned-IsPinned (Value.float x) h = cc
is_pinned-IsPinned Value.null h = cc

all_pinned-lookup :
    (images : Fields) (name : String) (item : Value)
    → all_pinned images ≡ true
    → lookup name images ≡ some item
    → is_pinned item ≡ true
unfolding all_pinned lookup
all_pinned-lookup end name item h at = cc
all_pinned-lookup (field k v rest) name item h at = elim (Bool-cases (k =s name)) [
  | inl same ↦ subst (λ v. is_pinned v ≡ true) (some-injective (rw same at at)) (ground arith)
  | inr other ↦ all_pinned-lookup rest name item (ground arith) (rw other at at)
]

both_left : (a b : Bool) → (a && b) ≡ true → a ≡ true
both_left a b h = ground arith

both_right : (a b : Bool) → (a && b) ≡ true → b ≡ true
both_right a b h = ground arith

raise_both :
    {A : Type 0} (b : Bool) (e f : Exn) {x : A} → (if b then raise e else raise f) ≡ ok x → ⊥
raise_both true e f h = cc
raise_both false e f h = cc

refuse_list-raises : (items : List Value) {images : Fields} → refuse_list items ≡ ok images → ⊥
unfolding refuse_list
refuse_list-raises items h = elim (Bool-cases (any is_unhashable items)) [
  | inl e ↦ cc (rw e at h)
  | inr e ↦ raise_both _ _ _ (rw e at h)
]

-- The names of an accepted lock.
named_images_sound :
    (value : Value) {images : Fields}
    → named_images value ≡ ok images
    → (value ≡ obj images)
      × (all (λ name. has name images) required_images ≡ true)
      × (all (contains allowed_images) (keys images) ≡ true)
unfolding named_images
named_images_sound (obj d) {images} h =
    let (good, same) =
      if_ok (all (λ name. has name d) required_images && all (contains allowed_images) (keys d)) _
        h in
    (
      ap obj same,
      subst (λ x. all (λ name. has name x) required_images ≡ true) same (both_left _ _ good),
      subst (λ x. all (contains allowed_images) (keys x) ≡ true) same (both_right _ _ good),
    )
named_images_sound (str x) h = cc
named_images_sound (Value.bool x) h = cc
named_images_sound (Value.int x) h = cc
named_images_sound (Value.float x) h = cc
named_images_sound Value.null h = cc
named_images_sound (arr items) h = absurd (refuse_list-raises (elements items) h)

-- An accepted lock pins all of its images, the required ones among them.
pub image_lock-IsLocked :
    (value : Value) {lock : Value} → image_lock value ≡ ok lock → IsLocked lock
unfolding image_lock
image_lock-IsLocked value h =
    let (schema, _, h1) = bind_ok (get value "schema_version") _ h in
    let (_, h2) = require_ok _ _ _ h1 in
    let (qualified, _, h3) = bind_ok (get value "qualified_for_public_exposure") _ h2 in
    let (_, h4) = require_ok _ _ _ h3 in
    let (given, at_given, h5) = bind_ok (get_or value "images" (obj end)) _ h4 in
    let (images, at_images, h6) = bind_ok (named_images given) _ h5 in
    let (pinned, h7) = require_ok (all_pinned images) _ _ h6 in
    let (frontend, _, h8) = bind_ok (subscript (obj images) "frontend") _ h7 in
    let (build, _, h9) = bind_ok (get frontend "build_from_source") _ h8 in
    let (_, h10) = refuse_ok _ _ _ h9 in
    let (same, complete, known) = named_images_sound given at_images in
    subst IsLocked (ok-injective h10) (record {
      images = images;
      of_images = at_given ∙ ap ok same;
      complete = λ name i. all-In (λ n. has n images) required_images complete i;
      known = λ name i.
          contains-In allowed_images name (all-In (contains allowed_images) (keys images) known i);
      are_pinned =
          λ name item at. is_pinned-IsPinned item (all_pinned-lookup images name item pinned at);
    })
