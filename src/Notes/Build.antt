-- ===== src/Notes/Build.antt =====
-- The change record of a release: `build_changes` of scripts/release_notes.py.
pub mod Flags
use mathlib.Core.List.{flat_map}
use usdb_explorer.Prelude.{
  ℕ, zero, suc, ◌+◌, String, ◌<>◌, Bool, true, false, not, ◌&&◌, ◌||◌, Option, none, some, List, [],
  ◌∷◌, ◌++◌, any, contains, ◌=s◌, if◌then◌else◌,
}
use usdb_explorer.Python.Value.{Value, Fields, str, has}
use usdb_explorer.Python.Exn.{Result, ok, raise, value_error, ◌>>=◌, ◌>>◌, require}
use usdb_explorer.Python.Text.{lt_str}
use usdb_explorer.Python.Regex.{Regex, text, then_, repeat, hex_digit, full_match}
use usdb_explorer.Python.Order.Sorting.{sort}
use usdb_explorer.Notes.Version.{Identity, version_key, lt_key, tag_identity}
use usdb_explorer.Notes.Fragment.{Compatibility}
use usdb_explorer.Notes.Commits.{Commit, Coverage, classified, exempt, unclassified}
use usdb_explorer.Notes.Changes.{
  Tools, Impact, Change, Inputs, NewFragment, Range, range_changes, source_changes,
}
use usdb_explorer.Notes.Inputs.{Sources, requires_notes, source_inputs}

abbrev same_impact : Impact → Impact → Bool
same_impact Impact.config_change Impact.config_change = true
same_impact Impact.data_rebuild Impact.data_rebuild = true
same_impact Impact.network_reset Impact.network_reset = true
same_impact Impact.restart_required Impact.restart_required = true
same_impact _ _ = false

-- `compatibility[key]`
abbrev pub flag_of : Impact → Compatibility → Bool
flag_of Impact.config_change c = c.config_change
flag_of Impact.data_rebuild c = c.data_rebuild
flag_of Impact.network_reset c = c.network_reset
flag_of Impact.restart_required c = c.restart_required

-- A fragment declares the impact, or the evidence shows it.
unfoldable pub has_impact : Impact → List NewFragment → List Change → Bool
has_impact key changes evidence =
    any (λ n. flag_of key n.fragment.compatibility) changes
    || any (λ c. same_impact c.impact key) evidence

unfoldable pub compatibility_flags : List NewFragment → List Change → Compatibility
unfolding has_impact
compatibility_flags changes evidence =
    let reset = has_impact Impact.network_reset changes evidence in
    record {
      config_change = has_impact Impact.config_change changes evidence;
      data_rebuild = if reset then false else has_impact Impact.data_rebuild changes evidence;
      network_reset = reset;
      restart_required = has_impact Impact.restart_required changes evidence;
    }

pub data Classification : Type 0 where
  network_reset data_rebuild config_change restart_required in_place : Classification

unfoldable pub classification_of : Compatibility → Classification
classification_of flags =
    if flags.network_reset
    then network_reset
    else if flags.data_rebuild
    then data_rebuild
    else if flags.config_change
    then config_change
    else if flags.restart_required
    then restart_required
    else in_place

abbrev dedupe : List String → List String
dedupe [] = []
dedupe (x ∷ xs) = let rest = dedupe xs in if contains xs x then rest else x ∷ rest

-- `sorted({action for change in changes for action in change["operator_actions"]})`
unfoldable pub all_actions : List NewFragment → List String
all_actions changes = sort lt_str (dedupe (flat_map (λ n. n.fragment.operator_actions) changes))

abbrev pub same_status : Coverage → Coverage → Bool
same_status classified classified = true
same_status exempt exempt = true
same_status unclassified unclassified = true
same_status _ _ = false

unfoldable pub count_status : Coverage → List Commit → ℕ
count_status status [] = 0
count_status status (c ∷ commits) =
    let rest = count_status status commits in
    if same_status status c.classification then suc rest else rest

pub record ReleaseChanges : Type 0 where
  pub frontend_image : Option String
  pub release_id : String
  pub source_revision : String
  pub previous_release : Option Identity
  pub gateway_image : String
  pub source_inputs : Inputs
  pub previous_source_inputs : Option Inputs
  pub changes : List NewFragment
  pub classification : Classification
  pub flags : Compatibility
  pub source_changes : List Change
  pub operator_actions : List String
  pub compare_url : String
  pub commits : List Commit
  pub coverage : ℕ × (ℕ × ℕ)

abbrev pub gateway_re : Regex
gateway_re = then_ (text "ghcr.io/buckyos/usdb-explorer-gateway@sha256:") (repeat 64 hex_digit)

abbrev pub frontend_re : Regex
frontend_re = then_ (text "ghcr.io/buckyos/usdb-explorer-frontend@sha256:") (repeat 64 hex_digit)

abbrev same_identity : Identity → Identity → Bool
same_identity a b =
    (a.release_id =s b.release_id)
    && (a.tag_object =s b.tag_object)
    && (a.source_revision =s b.source_revision)

abbrev repository_url : String
repository_url = "https://github.com/buckyos/usdb-explorer/"

abbrev compare_url_of : String → Option String → String
compare_url_of revision none = repository_url <> "tree/" <> revision
compare_url_of revision (some previous) =
    repository_url <> "compare/" <> previous <> "..." <> revision

-- `re.fullmatch(pattern, frontend_image or "")`
abbrev or_empty : Option String → String
or_empty none = ""
or_empty (some s) = s

abbrev is_none : Option String → Bool
is_none none = true
is_none (some s) = false

unfoldable pub check_frontend : Inputs → Option String → Result (Unit {0})
check_frontend inputs frontend_image =
    if has "frontend_source_sha256" inputs.values
    then require (full_match frontend_re (or_empty frontend_image))
        "frontend image must be pinned to an Explorer digest"
    else require (is_none frontend_image) "custom frontend is not supported by this source revision"

-- An empty revision is none, as `if previous_revision` has it.
abbrev pub given_revision : String → Option String
given_revision revision = if revision =s "" then none else some revision

module _ (s : Sources) where
  -- The revision of the previous release, if there is one. Its keys are those of `Identity`.
  unfoldable pub check_previous : String → Option Identity → Result (Option String)
  check_previous release_id none = ok none
  check_previous release_id (some previous) = do
    key ← version_key (str previous.release_id)
    bound ← version_key (str release_id)
    require (lt_key key bound) "previous release must have a lower version"
    identity ← tag_identity s.tools.git previous.release_id
    require (same_identity identity previous) "previous release tag changed"
    ok (given_revision previous.source_revision)

  unfoldable pub prior_inputs : Option String → Result (Option Inputs)
  prior_inputs none = ok none
  prior_inputs (some previous_revision) = do
    inputs ← source_inputs s previous_revision
    ok (some inputs)

  -- What is compared between the two revisions.
  pub record Comparison : Type 0 where
    pub previous_revision : Option String
    pub range : Range
    pub inputs : Inputs
    pub prior : Option Inputs

  unfoldable pub compare_revisions : String → String → Option Identity → Result Comparison
  compare_revisions release_id revision previous = do
    previous_revision ← check_previous release_id previous
    range ← range_changes s.tools revision previous_revision
    inputs ← source_inputs s revision
    prior ← prior_inputs previous_revision
    ok (record {
      previous_revision = previous_revision;
      range = range;
      inputs = inputs;
      prior = prior;
    })

  unfoldable pub build_changes :
      String → String → Option Identity → Option String → Result ReleaseChanges
  build_changes release_id gateway_image previous frontend_image = do
    current ← tag_identity s.tools.git release_id
    let revision = current.source_revision
    enabled ← requires_notes s revision
    require enabled "tag does not enable structured release notes"
    require (full_match gateway_re gateway_image)
        "gateway image must be pinned to an Explorer digest"
    c ← compare_revisions release_id revision previous
    let evidence = source_changes c.prior c.inputs
    let flags = compatibility_flags c.range.changes evidence
    check_frontend c.inputs frontend_image
    ok (record {
      frontend_image = frontend_image;
      release_id = release_id;
      source_revision = revision;
      previous_release = previous;
      gateway_image = gateway_image;
      source_inputs = c.inputs;
      previous_source_inputs = c.prior;
      changes = c.range.changes;
      classification = classification_of flags;
      flags = flags;
      source_changes = evidence;
      operator_actions = all_actions c.range.changes;
      compare_url = compare_url_of revision c.previous_revision;
      commits = c.range.commits;
      coverage = (
        count_status classified c.range.commits,
        (count_status exempt c.range.commits, count_status unclassified c.range.commits),
      );
    })
