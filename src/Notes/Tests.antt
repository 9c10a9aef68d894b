-- ===== src/Notes/Tests.antt =====
-- Runs of scripts/release_notes.py on a small repository with two tagged releases, and the
-- theorems of `Notes` at it.
use usdb_explorer.Prelude.{
  ◌≡◌, refl, String, ◌<>◌, true, false, if◌then◌else◌, List, [], ◌∷◌, none, ◌=s◌,
}
use usdb_explorer.Python.Value.{
  Value, Fields, field, end, obj, str, bool, arr, nil, cons, nat, null,
}
use usdb_explorer.Python.Exn.{Result, ok, raise, Exn, value_error, os_error}
use usdb_explorer.Notes.Version.{
  version_key, Identity, Api, is_candidate, highest, previous_published, lt_key, key_of,
}
use usdb_explorer.Notes.Version.Order.{highest_lem, IsHighest, prerelease-lt-release}
use usdb_explorer.Notes.Version.Previous.{IsPrevious, previous_published-IsPrevious}
use usdb_explorer.Notes.Fragment.{Fragment, Compatibility, validate_fragment, fragment_value}
use usdb_explorer.Notes.Fragment.Canonical.{
  IsFragment, validate_fragment-IsFragment, validate_fragment_complete,
  validate_fragment-fragment_value,
}

-- The result of a run, which succeeds in every use below.
abbrev of_run : {A : Type 0} → A → Result A → A
of_run x (ok y) = y
of_run x (raise e) = x

abbrev released : Value
released = obj (
    field "draft" (bool false)
      (field "published_at" (str "2026-01-01") (field "tag_name" (str "v0.9.0") end)))

abbrev drafted : Value
drafted =
    obj
      (field "draft" (bool true) (field "published_at" null (field "tag_name" (str "v0.9.5") end)))

abbrev candidate_release : Value
candidate_release = obj (
    field "draft" (bool false)
      (field "published_at" (str "2026-02-01") (field "tag_name" (str "v1.0.0-rc.1") end)))

abbrev page_list : List (List Value)
page_list = (released ∷ drafted ∷ []) ∷ (candidate_release ∷ []) ∷ []

abbrev answer : String → String → Result String
answer name ref = if name =s "cat-file" then ok "tag\n" else ok (ref <> "\n")

abbrev git : List String → Result String
git (name ∷ ref ∷ []) = answer name ref
git (name ∷ option ∷ ref ∷ []) = answer name ref
git _ = raise (value_error "git")

abbrev api : Api
api = record {
  json = λ path. ok (
      obj (
        field "object"
          (obj (field "type" (str "tag") (field "sha" (str "refs/tags/v1.0.0-rc.1") end))) end));
  pages = λ path. ok page_list;
}

abbrev rc_identity : Identity
rc_identity = record {
  release_id = "v1.0.0-rc.1";
  tag_object = "refs/tags/v1.0.0-rc.1";
  source_revision = "refs/tags/v1.0.0-rc.1^{commit}";
}

previous_published-IsPrevious_example : IsPrevious api git none "v1.0.0" page_list rc_identity
unfolding previous_published lt_key version_key highest is_candidate
    usdb_explorer.Python.Exn.keep_each usdb_explorer.Python.Exn.get
    usdb_explorer.Python.Value.lookup usdb_explorer.Python.Value.truthy
    usdb_explorer.Python.Exn.get_or usdb_explorer.Python.Regex.full_match
    usdb_explorer.Python.Exn.subscript usdb_explorer.Python.Exn.each
    usdb_explorer.Python.Text.partition usdb_explorer.Python.Text.split
    usdb_explorer.Python.Text.decimal_value usdb_explorer.Python.Text.strip
    usdb_explorer.Python.Value.equal
previous_published-IsPrevious_example =
    previous_published-IsPrevious api git none "v1.0.0" page_list {identity = rc_identity} refl refl

highest_lem_example : IsHighest "v1.0.0" ("v0.9.0" ∷ "v1.0.0" ∷ "v1.0.0-rc.1" ∷ [])
unfolding highest key_of lt_key usdb_explorer.Python.Text.partition usdb_explorer.Python.Text.split
    usdb_explorer.Python.Text.decimal_value
highest_lem_example = highest_lem "v0.9.0" ("v1.0.0" ∷ "v1.0.0-rc.1" ∷ [])

prerelease-lt-release_example : lt_key (key_of "v1.2.3-rc.1") (key_of "v1.2.3") ≡ true
prerelease-lt-release_example = prerelease-lt-release "1.2.3" "rc.1" refl

-- A document whose scopes and references are out of order.
abbrev list_of_two : String → String → Value
list_of_two a b = arr (cons (str a) (cons (str b) nil))

abbrev document : Fields
document = field "change_id" (str "new-gateway") (
    field "compatibility"
      (obj (
        field "config_change" (bool false) (
          field "data_rebuild" (bool false)
            (field "network_reset" (bool false) (field "restart_required" (bool true) end)))))
      (field "details" (list_of_two "One." "Two.") (
        field "operator_actions" (arr nil) (
          field "references" (list_of_two "https://b" "https://a") (
            field "schema_version" (str "usdb-change-fragment:v1") (
              field "scopes" (list_of_two "release" "gateway")
                (field "summary" (str "A new gateway") (field "type" (str "added") end))))))))

abbrev accepted : Fragment
accepted = record {
  change_id = "new-gateway";
  change_type = "added";
  scopes = "gateway" ∷ "release" ∷ [];
  summary = "A new gateway";
  details = "One." ∷ "Two." ∷ [];
  operator_actions = [];
  compatibility = record {
    config_change = false;
    data_rebuild = false;
    network_reset = false;
    restart_required = true;
  };
  references = "https://a" ∷ "https://b" ∷ [];
}

validate_fragment-IsFragment_example : IsFragment accepted
unfolding validate_fragment usdb_explorer.Notes.Fragment.validate_header
    usdb_explorer.Notes.Fragment.validate_scopes usdb_explorer.Notes.Fragment.validate_details
    usdb_explorer.Notes.Fragment.validate_references
    usdb_explorer.Notes.Fragment.validate_compatibility usdb_explorer.Notes.Fragment.only_booleans
    usdb_explorer.Notes.Fragment.require_https usdb_explorer.Notes.Fragment.require_text
    usdb_explorer.Notes.Fragment.require_text_of usdb_explorer.Notes.Fragment.require_texts
    usdb_explorer.Notes.Fragment.require_text_array usdb_explorer.Notes.Fragment.require_exact_keys
    usdb_explorer.Python.Value.keys usdb_explorer.Python.Exn.subscript
    usdb_explorer.Python.Value.lookup usdb_explorer.Python.Value.equal
    usdb_explorer.Python.Value.elements usdb_explorer.Python.Order.Sorting.sort
    usdb_explorer.Python.Order.Sorting.insert usdb_explorer.Python.Text.lt_str
    usdb_explorer.Python.Text.strip usdb_explorer.Python.Text.lstrip
    usdb_explorer.Python.Text.rstrip usdb_explorer.Python.Regex.full_match
    usdb_explorer.Python.Text.is_space
validate_fragment-IsFragment_example =
    validate_fragment-IsFragment document "a.json" {f = accepted} refl

validate_fragment-fragment_value_example :
    validate_fragment (fragment_value accepted) "b.json" ≡ ok accepted
unfolding validate_fragment usdb_explorer.Notes.Fragment.validate_header
    usdb_explorer.Notes.Fragment.validate_scopes usdb_explorer.Notes.Fragment.validate_details
    usdb_explorer.Notes.Fragment.validate_references
    usdb_explorer.Notes.Fragment.validate_compatibility usdb_explorer.Notes.Fragment.only_booleans
    usdb_explorer.Notes.Fragment.require_https usdb_explorer.Notes.Fragment.require_text
    usdb_explorer.Notes.Fragment.require_text_of usdb_explorer.Notes.Fragment.require_texts
    usdb_explorer.Notes.Fragment.require_text_array usdb_explorer.Notes.Fragment.require_exact_keys
    usdb_explorer.Python.Value.keys usdb_explorer.Python.Exn.subscript
    usdb_explorer.Python.Value.lookup usdb_explorer.Python.Value.equal
    usdb_explorer.Python.Value.elements usdb_explorer.Python.Order.Sorting.sort
    usdb_explorer.Python.Order.Sorting.insert usdb_explorer.Python.Text.lt_str
    usdb_explorer.Python.Text.strip usdb_explorer.Python.Text.lstrip
    usdb_explorer.Python.Text.rstrip usdb_explorer.Python.Regex.full_match
    usdb_explorer.Python.Text.is_space
validate_fragment-fragment_value_example =
    validate_fragment-fragment_value document "a.json" "b.json" {f = accepted} refl

validate_fragment_complete_example :
    validate_fragment (fragment_value accepted) "b.json" ≡ ok accepted
validate_fragment_complete_example =
    validate_fragment_complete accepted "b.json" validate_fragment-IsFragment_example
