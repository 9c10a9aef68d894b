-- ===== src/Notes/Changes.antt =====
-- The changes between two revisions: `fragments_at`, `source_changes` and `range_changes` of
-- scripts/release_notes.py.
pub mod AppendOnly
pub mod Evidence
use Prim.Native.Char.{code}
use mathlib.Core.List.{map}
use usdb_explorer.Prelude.{
  ℕ, zero, suc, ◌+◌, String, ◌<>◌, Bool, true, false, not, ◌&&◌, ◌||◌, Option, none, some, List, [],
  ◌∷◌, ◌++◌, keep, contains, ltb, ◌==◌, ◌=s◌, if◌then◌else◌,
}
use usdb_explorer.Python.Value.{Value, Fields, null, lookup, keys, equal}
use usdb_explorer.Python.Exn.{Result, ok, raise, value_error, ◌>>=◌, ◌>>◌, require}
use usdb_explorer.Python.Text.{starts_with, partition, split, codes, lt_str}
use usdb_explorer.Python.Regex.{full_match}
use usdb_explorer.Python.Order.{lex_pair}
use usdb_explorer.Python.Order.Sorting.{sort}
use usdb_explorer.Notes.Version.{revision_re}
use usdb_explorer.Notes.Fragment.{Fragment, validate_fragment, change_types}
use usdb_explorer.Notes.Commits.{Commit, commit_records}

-- What the script calls outside of it: Git and `json.loads` of a text from a source.
pub record Tools : Type 0 where
  pub git : List String → Result String
  pub load_json : String → String → Result Fields

-- What stands before and behind the last character `sep`.
unfoldable pub rpartition : ℕ → String → Option (String × String)
rpartition sep String.[] = none
rpartition sep (String.◌∷◌ c s) =
    let later = rpartition sep s in
    let here = if code c == sep then some ("", s) else none in
    elim later [ some (a, b) ↦ some (String.◌∷◌ c a, b) | none ↦ here ]

-- `Path(path).parent.as_posix()` and `Path(path).name` of a path that Git lists.
abbrev parent : String → String
parent path = elim (rpartition b'/' path) [ none ↦ "." | some (a, b) ↦ a ]

abbrev name : String → String
name path = elim (rpartition b'/' path) [ none ↦ path | some (a, b) ↦ b ]

-- The suffix of a name is what its last dot begins, if there is text before and behind the dot.
abbrev stem_of : String → String
stem_of file = elim (rpartition b'.' file) [
  | none ↦ file
  | some (a, b) ↦ if (a =s "") || (b =s "") then file else a
]

abbrev pub stem : String → String
stem path = stem_of (name path)

-- `path.endswith(".json")`
abbrev ends_with : String → String → Bool
ends_with String.[] t = t =s ""
ends_with (String.◌∷◌ c s) t = (String.◌∷◌ c s =s t) || ends_with s t

-- `fragments[path] = (raw, fragment)`
pub record Entry : Type 0 where
  pub path : String
  pub raw : String
  pub fragment : Fragment

unfoldable pub put_entry : Entry → List Entry → List Entry
put_entry e [] = e ∷ []
put_entry e (d ∷ entries) = if d.path =s e.path then e ∷ entries else d ∷ put_entry e entries

unfoldable pub find_entry : String → List Entry → Option Entry
find_entry path [] = none
find_entry path (e ∷ entries) = if e.path =s path then some e else find_entry path entries

module _ (t : Tools) where
  unfoldable pub read_fragment : String → String → Result Entry
  read_fragment revision listed = elim (partition 9 listed).1 [
    | none ↦ raise (value_error "not enough values to unpack")
    | some path ↦ do
      require
          (starts_with (partition 9 listed).0 "100644 blob "
            && (parent path =s ".release-notes/fragments")
            && ends_with path ".json")
          ("fragment must be a regular top-level JSON file: " <> path)
      raw ← t.git ("show" ∷ (revision <> ":" <> path) ∷ [])
      document ← t.load_json raw path
      fragment ← validate_fragment document path
      require (stem path =s fragment.change_id)
          ("fragment file name must equal change_id: " <> path)
      ok (record { path = path; raw = raw; fragment = fragment })
  ]

  unfoldable pub read_fragments : String → List String → List Entry → Result (List Entry)
  read_fragments revision [] entries = ok entries
  read_fragments revision (listed ∷ more) entries =
      if listed =s "" then read_fragments revision more entries else do
        entry ← read_fragment revision listed
        read_fragments revision more (put_entry entry entries)

  unfoldable pub fragments_at : String → Result (List Entry)
  fragments_at revision = do
    output ← t.git ("ls-tree" ∷ "-rz" ∷ revision ∷ "--" ∷ ".release-notes/fragments/" ∷ [])
    read_fragments revision (split 0 output) []

-- The four keys of a fragment's `compatibility`, of which evidence names one as its impact.
pub data Impact : Type 0 where
  config_change data_rebuild network_reset restart_required : Impact

pub record Change : Type 0 where
  pub path : String
  pub previous : Value
  pub current : Value
  pub impact : Impact

-- The dict of `source_inputs`. Its entry `images` is a dict itself, and stands apart.
pub record Inputs : Type 0 where
  pub values : Fields
  pub images : Fields

-- `d.get(key)`
abbrev pub value_at : String → Fields → Value
value_at k d = elim (lookup k d) [ none ↦ null | some v ↦ v ]

abbrev pub tracked : List (String × Impact)
tracked =
    ("network", network_reset)
    ∷ ("rpc_contract", config_change)
    ∷ ("config_schema", config_change)
    ∷ ("deployment_schema", config_change)
    ∷ ("gateway_source_sha256", restart_required)
    ∷ ("frontend_source_sha256", restart_required)
    ∷ []

unfoldable pub value_changes : Fields → Fields → List (String × Impact) → List Change
value_changes previous current [] = []
value_changes previous current ((key, impact) ∷ rest) =
    let more = value_changes previous current rest in
    if equal (value_at key previous) (value_at key current)
    then more
    else record {
      path = key;
      previous = value_at key previous;
      current = value_at key current;
      impact = impact;
    }
      ∷ more

unfoldable pub image_changes : Fields → Fields → List String → List Change
image_changes previous current [] = []
image_changes previous current (name ∷ rest) =
    let more = image_changes previous current rest in
    if equal (value_at name previous) (value_at name current)
    then more
    else record {
      path = "images." <> name;
      previous = value_at name previous;
      current = value_at name current;
      impact = restart_required;
    }
      ∷ more

-- `sorted(set(a) | set(b))` of the keys of two dicts.
unfoldable pub union : List String → List String → List String
union xs ys = sort lt_str (xs ++ keep (λ y. not (contains xs y)) ys)

unfoldable pub source_changes : Option Inputs → Inputs → List Change
source_changes none current = []
source_changes (some previous) current =
    value_changes previous.values current.values tracked
    ++ image_changes previous.images current.images
        (union (keys previous.images) (keys current.images))

-- A new fragment with `source_path`.
pub record NewFragment : Type 0 where
  pub fragment : Fragment
  pub source_path : String

-- `CHANGE_TYPE_ORDER.index(type)`; a validated type is in the tuple.
unfoldable pub rank : List String → String → ℕ
rank [] change_type = 0
rank (t ∷ ts) change_type = if t =s change_type then 0 else suc (rank ts change_type)

unfoldable pub sort_key : NewFragment → ℕ × String
sort_key n = (rank change_types n.fragment.change_type, n.fragment.change_id)

unfoldable pub lt_fragment : NewFragment → NewFragment → Bool
lt_fragment a b = lex_pair ltb lt_str (sort_key a) (sort_key b)

-- Every published fragment is still there, with the same bytes.
unfoldable pub require_kept : List Entry → List Entry → Result (Unit {0})
require_kept [] after = ok tt
require_kept (e ∷ before) after = do
  require (elim (find_entry e.path after) [ none ↦ false | some d ↦ d.raw =s e.raw ])
      ("published fragments are append-only: " <> e.path)
  require_kept before after

unfoldable pub new_fragments : List Entry → List Entry → List NewFragment
new_fragments before [] = []
new_fragments before (e ∷ after) =
    let more = new_fragments before after in
    elim (find_entry e.path before) [
      | some d ↦ more
      | none ↦ record { fragment = e.fragment; source_path = e.path } ∷ more
    ]

pub record Range : Type 0 where
  pub changes : List NewFragment
  pub commits : List Commit

module _ (t : Tools) where
  unfoldable pub published_fragments : String → Option String → Result (List Entry)
  published_fragments revision none = ok []
  published_fragments revision (some previous_revision) = do
    require (full_match revision_re previous_revision) "invalid previous revision"
    t.git ("merge-base" ∷ "--is-ancestor" ∷ previous_revision ∷ revision ∷ [])
    fragments_at t previous_revision

  unfoldable pub range_changes : String → Option String → Result Range
  range_changes revision previous_revision = do
    require (full_match revision_re revision) "invalid current revision"
    before ← published_fragments revision previous_revision
    after ← fragments_at t revision
    require_kept before after
    let changes = sort lt_fragment (new_fragments before after)
    commits ←
        commit_records t.git revision previous_revision (map (λ n. n.fragment.change_id) changes)
    ok (record { changes = changes; commits = commits })
