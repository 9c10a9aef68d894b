-- ===== src/Notes/Examples.antt =====
-- Runs of the change record of scripts/release_notes.py on a repository with two tagged releases
-- that differ in their network and in one fragment, and the theorems of `Notes` at it.
use usdb_explorer.Prelude.{
  ◌≡◌, refl, String, ◌<>◌, true, false, if◌then◌else◌, List, [], ◌∷◌, none, some, ◌=s◌, In,
}
use usdb_explorer.Python.Text.{occurs, starts_with}
use usdb_explorer.Python.Value.{
  Value, Fields, field, end, obj, str, bool, arr, nil, cons, nat, null, equal,
}
use usdb_explorer.Python.Exn.{Result, ok, raise, Exn, value_error, os_error}
use usdb_explorer.Notes.Version.{Identity}
use usdb_explorer.Notes.Fragment.{Fragment, Compatibility, validate_fragment, fragment_value}
use usdb_explorer.Notes.Commits.{Commit, classify, Coverage}
use usdb_explorer.Notes.Commits.Laws.{Says, classify-Says}
use usdb_explorer.Notes.Changes.{
  Tools, Entry, Inputs, Impact, Change, Range, fragments_at, range_changes, source_changes,
  NewFragment,
}
use usdb_explorer.Notes.Changes.AppendOnly.{IsAppendOnly, range_changes-IsAppendOnly}
use usdb_explorer.Notes.Changes.Evidence.{IsReported, source_changes-IsReported}
use usdb_explorer.Notes.Inputs.{Sources}
use usdb_explorer.Notes.Build.{
  ReleaseChanges, build_changes, compatibility_flags, Classification, classification_of, flag_of,
}
use usdb_explorer.Notes.Build.Flags.{in_place-no_impact, ResetsNetwork, build_changes-ResetsNetwork}

abbrev old_fragment : Fragment
old_fragment = record {
  change_id = "old";
  change_type = "fixed";
  scopes = "gateway" ∷ [];
  summary = "A fix";
  details = "One." ∷ [];
  operator_actions = [];
  compatibility = record {
    config_change = false;
    data_rebuild = false;
    network_reset = false;
    restart_required = false;
  };
  references = [];
}

abbrev new_fragment : Fragment
new_fragment = record {
  change_id = "new";
  change_type = "added";
  scopes = "gateway" ∷ [];
  summary = "A feature";
  details = "One." ∷ [];
  operator_actions = "Restart." ∷ [];
  compatibility = record {
    config_change = false;
    data_rebuild = true;
    network_reset = false;
    restart_required = true;
  };
  references = [];
}

abbrev old_revision : String
old_revision = "aaaaaaaaaaaaaaaaaaaaaaaaaaaaaaaaaaaaaaaa"

abbrev new_revision : String
new_revision = "bbbbbbbbbbbbbbbbbbbbbbbbbbbbbbbbbbbbbbbb"

abbrev gateway : String
gateway =
    "ghcr.io/buckyos/usdb-explorer-gateway@sha256:0000000000000000000000000000000000000000000000000000000000000000"

abbrev blob : String → String
blob name = "100644 blob 0\t.release-notes/fragments/" <> name <> "\0"

-- `git log`: one commit that names the new fragment.
abbrev log : String
log = new_revision <> "\u{1f}A feature\u{1f}Body\n\nRelease-Note: new\n\u{1e}\n"

abbrev joined : List String → String
joined [] = ""
joined (word ∷ words) = word <> (" " <> joined words)

-- The output of `git` for its arguments, joined.
abbrev output : String → String
output command =
    if starts_with command "cat-file"
    then "tag\n"
    else if command =s "rev-parse refs/tags/v1.0.0^{commit} "
    then old_revision <> "\n"
    else if command =s "rev-parse refs/tags/v1.1.0^{commit} "
    then new_revision <> "\n"
    else if starts_with command "rev-parse"
    then "object\n"
    else if starts_with command "log"
    then log
    else if command =s ("ls-tree -rz " <> old_revision <> " -- .release-notes/fragments/ ")
    then blob "old.json"
    else if command =s ("ls-tree -rz " <> new_revision <> " -- .release-notes/fragments/ ")
    then blob "new.json" <> blob "old.json"
    else if starts_with command "ls-tree"
    then "100644 blob 0\tx"
    else if occurs "fragments/" command
    then "{}"
    else command

-- The document of a path, at the revision its text names.
abbrev read : String → String → Result Fields
read raw path =
    if path =s ".release-notes/config.json"
    then ok (field "schema_version" (str "usdb-explorer-release-notes-policy:v1") end)
    else if occurs "old.json" path
    then ok (fragment_value old_fragment)
    else if occurs "new.json" path
    then ok (fragment_value new_fragment)
    else if path =s "default configuration"
    then ok (field "network" (str "usdb-testnet-v1") end)
    else if path =s "network catalog"
    then ok (
        field "bundle_id" (str "usdb-testnet-v1") (
          field "chain_id" (nat 1) (
            field "network_id" (nat 1) (
              field "genesis_block_hash" (str (if occurs old_revision raw then "0x1" else "0x2")) (
                field "btc_network_id" (str "testnet") (
                  field "btc_index_origin_height" (nat 0)
                    (field "btc_activation_registry_id" (str "r") end)))))))
    else if path =s "RPC contract"
    then ok (field "rpc" (obj end) end)
    else ok (
        field "images"
          (obj (field "frontend" (obj (field "reference" (str "frontend@sha256:1") end)) end)) end)

abbrev tools : Tools
tools = record { git = λ arguments. ok (output (joined arguments)); load_json = read }

abbrev sources : Sources
sources = record {
  tools = tools;
  assignments = λ source.
      ok (((("CONFIG_SCHEMA" ∷ []), str "c:v1")) ∷ ((("DEPLOYMENT_SCHEMA" ∷ []), str "d:v1")) ∷ []);
  sha256 = λ raw. raw;
}

abbrev commit : Commit
commit = record {
  revision = new_revision;
  subject = "A feature";
  release_notes = "new" ∷ [];
  classification = Coverage.classified;
}

abbrev listed : NewFragment
listed = record { fragment = new_fragment; source_path = ".release-notes/fragments/new.json" }

abbrev range : Range
range = record { changes = listed ∷ []; commits = commit ∷ [] }

classify-Says_example : Says ("new" ∷ "old" ∷ []) ("new" ∷ []) Coverage.classified
unfolding classify
classify-Says_example =
    (classify-Says ("new" ∷ []) ("new" ∷ "old" ∷ []) "c" {c = Coverage.classified} refl).1

range_changes-IsAppendOnly_example :
    (before after : List Entry) × (fragments_at tools old_revision ≡ ok before)
    × (fragments_at tools new_revision ≡ ok after)
    × IsAppendOnly before after (listed ∷ [])
unfolding usdb_explorer.Python.Value.items_of usdb_explorer.Python.Value.size
    usdb_explorer.Python.Text.occurs usdb_explorer.Notes.Fragment.validate_fragment
    usdb_explorer.Notes.Fragment.validate_header usdb_explorer.Notes.Fragment.validate_scopes
    usdb_explorer.Notes.Fragment.validate_details usdb_explorer.Notes.Fragment.validate_references
    usdb_explorer.Notes.Fragment.validate_compatibility usdb_explorer.Notes.Fragment.only_booleans
    usdb_explorer.Notes.Fragment.require_https usdb_explorer.Notes.Fragment.require_text
    usdb_explorer.Notes.Fragment.require_text_of usdb_explorer.Notes.Fragment.require_texts
    usdb_explorer.Notes.Fragment.require_text_array usdb_explorer.Notes.Fragment.require_exact_keys
    usdb_explorer.Python.Value.keys usdb_explorer.Python.Exn.subscript usdb_explorer.Python.Exn.get
    usdb_explorer.Python.Exn.get_or usdb_explorer.Python.Value.lookup
    usdb_explorer.Python.Value.equal usdb_explorer.Python.Value.truthy
    usdb_explorer.Python.Value.elements usdb_explorer.Python.Order.Sorting.sort
    usdb_explorer.Python.Order.Sorting.insert usdb_explorer.Python.Text.lt_str
    usdb_explorer.Python.Text.strip usdb_explorer.Python.Text.lstrip
    usdb_explorer.Python.Text.rstrip usdb_explorer.Python.Text.is_space
    usdb_explorer.Python.Text.split usdb_explorer.Python.Text.partition
    usdb_explorer.Python.Text.decimal_value usdb_explorer.Python.Regex.full_match
    usdb_explorer.Notes.Changes.range_changes usdb_explorer.Notes.Changes.published_fragments
    usdb_explorer.Notes.Changes.fragments_at usdb_explorer.Notes.Changes.read_fragments
    usdb_explorer.Notes.Changes.read_fragment usdb_explorer.Notes.Changes.rpartition
    usdb_explorer.Notes.Changes.put_entry usdb_explorer.Notes.Changes.find_entry
    usdb_explorer.Notes.Changes.require_kept usdb_explorer.Notes.Changes.new_fragments
    usdb_explorer.Notes.Changes.lt_fragment usdb_explorer.Notes.Changes.sort_key
    usdb_explorer.Notes.Changes.rank usdb_explorer.Notes.Commits.commit_records
    usdb_explorer.Notes.Commits.read_records usdb_explorer.Notes.Commits.commit_record
    usdb_explorer.Notes.Commits.find_notes usdb_explorer.Notes.Commits.note_at
    usdb_explorer.Notes.Commits.take_word usdb_explorer.Notes.Commits.count_spaces
    usdb_explorer.Notes.Commits.line_end usdb_explorer.Notes.Commits.classify
range_changes-IsAppendOnly_example =
    range_changes-IsAppendOnly tools new_revision old_revision {r = range} refl

abbrev inputs_of : String → String → Inputs
inputs_of network image = record {
  values = field "network" (str network) (field "config_schema" (str "c:v1") end);
  images = field "go" (str image) end;
}

source_changes-IsReported_example :
    IsReported
      (inputs_of "a" "i")
      (inputs_of "b" "j")
      (source_changes (some (inputs_of "a" "i")) (inputs_of "b" "j"))
source_changes-IsReported_example =
    source_changes-IsReported (inputs_of "a" "i") (inputs_of "b" "j")

abbrev harmless : NewFragment
harmless = record { fragment = old_fragment; source_path = "old.json" }

in_place-no_impact_example :
    (◌≡◌ {A = List Change} [] [])
    × ((n : NewFragment) (key : Impact)
        → In n (harmless ∷ [])
        → flag_of key n.fragment.compatibility ≡ false)
unfolding classification_of compatibility_flags usdb_explorer.Notes.Build.has_impact
in_place-no_impact_example = in_place-no_impact (harmless ∷ []) [] refl

abbrev old_release : Identity
old_release = record {
  release_id = "v1.0.0";
  tag_object = "object";
  source_revision = old_revision;
}

abbrev of_run : {A : Type 0} → A → Result A → A
of_run x (ok y) = y
of_run x (raise e) = x

abbrev no_release : ReleaseChanges
no_release = record {
  frontend_image = none;
  release_id = "";
  source_revision = "";
  previous_release = none;
  gateway_image = "";
  source_inputs = inputs_of "" "";
  previous_source_inputs = none;
  changes = [];
  classification = Classification.in_place;
  flags = old_fragment.compatibility;
  source_changes = [];
  operator_actions = [];
  compare_url = "";
  commits = [];
  coverage = (0, (0, 0));
}

build_changes-ResetsNetwork_example :
    ResetsNetwork sources "v1.1.0" old_release
      (of_run no_release (build_changes sources "v1.1.0" gateway (some old_release) none))
unfolding usdb_explorer.Python.Value.items_of usdb_explorer.Python.Value.size
    usdb_explorer.Python.Text.occurs usdb_explorer.Notes.Fragment.validate_fragment
    usdb_explorer.Notes.Fragment.validate_header usdb_explorer.Notes.Fragment.validate_scopes
    usdb_explorer.Notes.Fragment.validate_details usdb_explorer.Notes.Fragment.validate_references
    usdb_explorer.Notes.Fragment.validate_compatibility usdb_explorer.Notes.Fragment.only_booleans
    usdb_explorer.Notes.Fragment.require_https usdb_explorer.Notes.Fragment.require_text
    usdb_explorer.Notes.Fragment.require_text_of usdb_explorer.Notes.Fragment.require_texts
    usdb_explorer.Notes.Fragment.require_text_array usdb_explorer.Notes.Fragment.require_exact_keys
    usdb_explorer.Python.Value.keys usdb_explorer.Python.Exn.subscript usdb_explorer.Python.Exn.get
    usdb_explorer.Python.Exn.get_or usdb_explorer.Python.Value.lookup
    usdb_explorer.Python.Value.equal usdb_explorer.Python.Value.truthy
    usdb_explorer.Python.Value.elements usdb_explorer.Python.Order.Sorting.sort
    usdb_explorer.Python.Order.Sorting.insert usdb_explorer.Python.Text.lt_str
    usdb_explorer.Python.Text.strip usdb_explorer.Python.Text.lstrip
    usdb_explorer.Python.Text.rstrip usdb_explorer.Python.Text.is_space
    usdb_explorer.Python.Text.split usdb_explorer.Python.Text.partition
    usdb_explorer.Python.Text.decimal_value usdb_explorer.Python.Regex.full_match
    usdb_explorer.Notes.Changes.range_changes usdb_explorer.Notes.Changes.published_fragments
    usdb_explorer.Notes.Changes.fragments_at usdb_explorer.Notes.Changes.read_fragments
    usdb_explorer.Notes.Changes.read_fragment usdb_explorer.Notes.Changes.rpartition
    usdb_explorer.Notes.Changes.put_entry usdb_explorer.Notes.Changes.find_entry
    usdb_explorer.Notes.Changes.require_kept usdb_explorer.Notes.Changes.new_fragments
    usdb_explorer.Notes.Changes.lt_fragment usdb_explorer.Notes.Changes.sort_key
    usdb_explorer.Notes.Changes.rank usdb_explorer.Notes.Commits.commit_records
    usdb_explorer.Notes.Commits.read_records usdb_explorer.Notes.Commits.commit_record
    usdb_explorer.Notes.Commits.find_notes usdb_explorer.Notes.Commits.note_at
    usdb_explorer.Notes.Commits.take_word usdb_explorer.Notes.Commits.count_spaces
    usdb_explorer.Notes.Commits.line_end usdb_explorer.Notes.Commits.classify
    usdb_explorer.Notes.Inputs.requires_notes usdb_explorer.Notes.Inputs.source_inputs
    usdb_explorer.Notes.Inputs.constant usdb_explorer.Notes.Inputs.pick
    usdb_explorer.Notes.Inputs.references usdb_explorer.Notes.Build.build_changes
    usdb_explorer.Notes.Build.compare_revisions usdb_explorer.Notes.Build.check_previous
    usdb_explorer.Notes.Build.prior_inputs usdb_explorer.Notes.Build.check_frontend
    usdb_explorer.Notes.Build.has_impact usdb_explorer.Notes.Build.compatibility_flags
    usdb_explorer.Notes.Build.classification_of usdb_explorer.Notes.Build.all_actions
    usdb_explorer.Notes.Build.count_status usdb_explorer.Notes.Version.version_key
    usdb_explorer.Notes.Version.tag_identity usdb_explorer.Notes.Version.lt_key
    usdb_explorer.Notes.Version.key_of usdb_explorer.Notes.Changes.source_changes
    usdb_explorer.Notes.Changes.value_changes usdb_explorer.Notes.Changes.image_changes
    usdb_explorer.Notes.Changes.union usdb_explorer.Python.Order.lex
    usdb_explorer.Python.Order.lex_pair
build_changes-ResetsNetwork_example =
    build_changes-ResetsNetwork sources "v1.1.0" gateway old_release none refl refl
