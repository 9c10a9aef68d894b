-- ===== src/Config/Images.antt =====
-- `image_lock` of explorer/public_config.py, on the parsed `assets/images.lock.json`.
use usdb_explorer.Prelude.{
  String, Bool, true, false, if◌then◌else◌, not, ◌&&◌, List, [], ◌∷◌, Option, some, all, any,
  contains,
}
use usdb_explorer.Python.Value.{
  Value, Fields, field, end, obj, arr, str, bool, lookup, has, keys, elements, equal, truthy,
}
use usdb_explorer.Python.Exn.{
  Result, ok, raise, value_error, type_error, attribute_error, ◌>>=◌, ◌>>◌, require, refuse, get,
  get_or, subscript,
}
use usdb_explorer.Python.Regex.{full_match}
use usdb_explorer.Security.{digest_image}
use usdb_explorer.Publish.{is_text, is_one_of}

abbrev pub required_images : List String
required_images = "backend" ∷ "frontend" ∷ "postgres" ∷ "redis" ∷ "nginx" ∷ "go" ∷ []

abbrev pub allowed_images : List String
allowed_images = "gateway" ∷ "node" ∷ required_images

abbrev invalid_lock : String
invalid_lock = "invalid public service image lock"

abbrev pub is_unhashable : Value → Bool
is_unhashable (obj d) = true
is_unhashable (arr items) = true
is_unhashable _ = false

abbrev is_bool : Value → Bool
is_bool (bool b) = true
is_bool _ = false

-- A list has no `values()`, which shows where its members are the names.
unfoldable pub refuse_list : List Value → Result Fields
refuse_list items =
    if any is_unhashable items
    then raise type_error
    else if all (λ name. any (is_text name) items) required_images
        && all (is_one_of allowed_images) items
    then raise attribute_error
    else raise (value_error invalid_lock)

-- The images by their names, all of the required ones and none that is unknown.
unfoldable pub named_images : Value → Result Fields
named_images (obj images) =
    if all (λ name. has name images) required_images && all (contains allowed_images) (keys images)
    then ok images
    else raise (value_error invalid_lock)
named_images (arr items) = refuse_list (elements items)
named_images (str s) = raise (value_error invalid_lock)
named_images _ = raise type_error

-- `DIGEST_IMAGE.fullmatch(str(reference))`
abbrev pub is_digest : Option Value → Bool
is_digest (some (str s)) = full_match digest_image s
is_digest _ = false

abbrev pub is_pinned : Value → Bool
is_pinned (obj item) = is_digest (lookup "reference" item)
is_pinned _ = false

unfoldable pub all_pinned : Fields → Bool
all_pinned end = true
all_pinned (field name item rest) = is_pinned item && all_pinned rest

unfoldable pub image_lock : Value → Result Value
image_lock value = do
  schema ← get value "schema_version"
  require (equal schema (str "usdb-public-service-images:v1")) invalid_lock
  qualified ← get value "qualified_for_public_exposure"
  require (is_bool qualified) invalid_lock
  images ← named_images (← get_or value "images" (obj end))
  require (all_pinned images) "every public service image must be pinned by digest"
  frontend ← subscript (obj images) "frontend"
  build ← get frontend "build_from_source"
  refuse (truthy build && not (has "node" images))
      "source frontend builds require a frozen Node image"
  ok value
