-- ===== src/Publish.antt =====
-- explorer/publish_release.py: the assets of a release, the build it comes from, and its promotion.
use usdb_explorer.Prelude.{
  ℕ, String, ◌<>◌, Bool, true, false, if◌then◌else◌, not, ◌&&◌, ◌||◌, ◌=s◌, ◌==◌, ltb, leb, List,
  [], ◌∷◌, ◌++◌, Option, none, some, all, any, contains, distinct, length,
}
use usdb_explorer.Prelude.Int.{ℤ, pos, negsuc}
use usdb_explorer.Python.Value.{
  Value, Fields, null, bool, int, str, arr, obj, nil, elements, equal, truthy,
}
use usdb_explorer.Python.Exn.{
  Result, ok, raise, Exn, value_error, type_error, attribute_error, ◌>>=◌, ◌>>◌, require, get,
  get_or, subscript, each, keep_each,
}
use usdb_explorer.Python.Regex.{Regex, then_, text, repeat, hex_digit, full_match}
use usdb_explorer.Python.Text.{lt_str, partition}
use usdb_explorer.Python.Order.Sorting.{sort}
use mathlib.Core.List.{map}
pub mod Complete
pub mod Promotion
pub mod Published
mod Tests

abbrev pub max_asset_bytes : ℕ
max_asset_bytes = 16777216

abbrev pub release_notes_names : List String
release_notes_names =
    "release-changes.json" ∷ "release-changes.json.sha256" ∷ "release-changes.md" ∷ []

abbrev pub archive_of : String → String
archive_of release_id = "usdb-explorer-" <> release_id <> ".tar.gz"

abbrev pub installer_of : String → String
installer_of release_id = "install-usdb-explorer-" <> release_id <> ".sh"

-- The complete publication, by whether it has structured notes.
unfoldable pub asset_names : String → Bool → List String
asset_names release_id structured_notes =
    archive_of release_id
    ∷ (archive_of release_id <> ".sha256")
    ∷ installer_of release_id
    ∷ (installer_of release_id <> ".sha256")
    ∷ (if structured_notes then release_notes_names else [])

pub record Asset : Type 0 where
  pub id : ℕ
  pub name : String
  pub size : ℕ
  pub digest : String

abbrev pub digest_re : Regex
digest_re = then_ (text "sha256:") (repeat 64 hex_digit)

-- A whole number above 0.
unfoldable pub positive : Value → String → Result ℕ
positive (int (pos n)) message = if ltb 0 n then ok n else raise (value_error message)
positive _ message = raise (value_error message)

abbrev pub text_of : Value → String → Result String
text_of (str s) message = ok s
text_of _ message = raise (value_error message)

-- `re.fullmatch(pattern, v or "")`
unfoldable pub digest_of : Value → String → Result String
digest_of (str s) message = if full_match digest_re s then ok s else raise (value_error message)
digest_of v message = if truthy v then raise type_error else raise (value_error message)

abbrev pub incomplete : String
incomplete = "release asset is incomplete or has an invalid size/digest"

abbrev pub mismatch : String
mismatch = "release identity or complete asset set does not match the public tag"

-- `asset[key]`, a whole number above 0.
unfoldable pub positive_entry : Value → String → Result ℕ
positive_entry asset key = do positive (← get asset key) incomplete

unfoldable pub digest_entry : Value → Result String
digest_entry asset = do digest_of (← get asset "digest") incomplete

unfoldable pub uploaded : Value → Result (Unit {0})
uploaded asset = do require (equal (← get asset "state") (str "uploaded")) incomplete

-- The body of the loop over the assets.
unfoldable pub read_asset : Value → Result Asset
read_asset asset = do
  id ← positive_entry asset "id"
  uploaded asset
  size ← positive_entry asset "size"
  require (leb size max_asset_bytes) incomplete
  digest ← digest_entry asset
  name ← text_of (← get asset "name") mismatch
  ok (record { id = id; name = name; size = size; digest = digest })

abbrev pub is_one_of : List String → Value → Bool
is_one_of names (str s) = contains names s
is_one_of names _ = false

abbrev pub is_text : String → Value → Bool
is_text name (str s) = s =s name
is_text name _ = false

-- `{a.get("name") for a in assets} == names`
unfoldable pub names_match : List Value → List String → Bool
names_match found names =
    all (is_one_of names) found && all (λ name. any (is_text name) found) names

abbrev pub list_of : Value → Result (List Value)
list_of (arr items) = ok (elements items)
list_of _ = raise type_error

abbrev as_bool : Value → Result Bool
as_bool (bool b) = ok b
as_bool _ = raise (value_error mismatch)

abbrev pub lt_name : Asset → Asset → Bool
lt_name a b = lt_str a.name b.name

abbrev pub is_true : Value → Bool
is_true (bool true) = true
is_true _ = false

-- `len(set(ids)) == len(ids)`
unfoldable pub distinct_ids : List ℕ → Bool
distinct_ids [] = true
distinct_ids (id ∷ ids) = not (any (λ other. other == id) ids) && distinct_ids ids

-- The identity of the release, and whether it is a draft.
unfoldable pub check_release : Value → String → Result Bool
check_release release release_id = do
  tag ← get release "tag_name"
  require (equal tag (str release_id)) mismatch
  positive (← get release "id") mismatch
  as_bool (← get release "draft")

-- The assets as they are listed: the whole set, and a pre-release if they are public.
unfoldable pub listed_assets : Value → String → List String → Result (List Value)
listed_assets release release_id names = do
  listed ← get_or release "assets" (arr nil)
  draft ← check_release release release_id
  assets ← list_of listed
  require (length assets == length names) mismatch
  found ← each (λ asset. get asset "name") assets
  require (names_match found names) mismatch
  prerelease ← get release "prerelease"
  require (draft || is_true prerelease) "existing public release must already be a pre-release"
  ok assets

unfoldable pub release_assets : Value → String → Bool → Result (List Asset)
release_assets release release_id structured_notes = do
  assets ← listed_assets release release_id (asset_names release_id structured_notes)
  read ← each read_asset assets
  require (distinct_ids (map (λ asset. asset.id) read)) "release assets contain duplicate IDs"
  ok (sort lt_name read)

-- The workflow file of a run: the path before its first `@`.
abbrev workflow_of : Value → Result String
workflow_of (str path) = ok (partition b'@' path).0
workflow_of _ = raise attribute_error

-- A run of the build workflow that a push of the tag started.
unfoldable pub is_build : String → String → Value → Result Bool
is_build release_id revision run = do
  branch ← get run "head_branch"
  sha ← get run "head_sha"
  event ← get run "event"
  if not (equal branch (str release_id) && equal sha (str revision) && equal event (str "push"))
      then ok false
      else do
        workflow ← workflow_of (← get_or run "path" (str ""))
        ok (workflow =s ".github/workflows/release-build.yml")

abbrev no_build : String
no_build = "expected exactly one successful public release build for this tag and revision"

-- The only run, and it succeeded.
unfoldable pub only_run : List Value → Result Value
only_run (run ∷ []) = do
  status ← get run "status"
  require (equal status (str "completed")) no_build
  conclusion ← get run "conclusion"
  require (equal conclusion (str "success")) no_build
  ok run
only_run _ = raise (value_error no_build)

unfoldable pub runs_of : List Value → Result (List Value)
runs_of [] = ok []
runs_of (page ∷ pages) = do
  runs ← list_of (← subscript page "workflow_runs")
  rest ← runs_of pages
  ok (runs ++ rest)

unfoldable pub resolve_build : List Value → String → String → Result Value
resolve_build pages release_id revision = do
  runs ← runs_of pages
  builds ← keep_each (is_build release_id revision) runs
  only_run builds
