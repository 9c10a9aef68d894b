-- ===== src/Publish/Tests.antt =====
-- A promotion of a release with four assets, and the theorems of `Publish` at it.
use usdb_explorer.Prelude.{◌≡◌, refl, String, ◌<>◌, Bool, true, false, List, [], ◌∷◌, ℕ, suc}
use usdb_explorer.Python.Value.{
  Value, Fields, field, end, obj, arr, nil, cons, str, bool, nat, null, items_of,
}
use usdb_explorer.Python.Exn.{Result, ok, raise, value_error}
use usdb_explorer.Rpc.Calls.{Io, Outcome, done, failed}
use usdb_explorer.Rpc.Guard.{Keeps}
use usdb_explorer.Publish.{Asset, release_assets, asset_names, resolve_build}
use usdb_explorer.Publish.Complete.{IsComplete, release_assets-IsComplete}
use usdb_explorer.Publish.Promotion.{GitHub, Inspection, promote}
use usdb_explorer.Publish.Published.{IsPromoted, promote-IsPromoted, promote-Keeps}

abbrev hex_text : String
hex_text = "0000000000000000000000000000000000000000000000000000000000000000"

abbrev asset : ℕ → String → Value
asset id name = obj (
    field "id" (nat id) (
      field "name" (str name) (
        field "state" (str "uploaded")
          (field "size" (nat 10) (field "digest" (str ("sha256:" <> hex_text)) end)))))

abbrev release : Bool → Value
release draft = obj (
    field "tag_name" (str "v1.0.0") (
      field "id" (nat 5) (
        field "draft" (bool draft) (
          field "prerelease" (bool true) (
            field "name" (str "Release") (
              field "body" (str "Notes") (
                field "assets"
                  (arr (
                    cons (asset 1 "usdb-explorer-v1.0.0.tar.gz") (
                      cons (asset 2 "usdb-explorer-v1.0.0.tar.gz.sha256") (
                        cons (asset 3 "install-usdb-explorer-v1.0.0.sh")
                          (cons (asset 4 "install-usdb-explorer-v1.0.0.sh.sha256") nil)))))
                  end)))))))

abbrev read : ℕ → String → Asset
read id name = record { id = id; name = name; size = 10; digest = "sha256:" <> hex_text }

abbrev assets : List Asset
assets =
    read 3 "install-usdb-explorer-v1.0.0.sh"
    ∷ read 4 "install-usdb-explorer-v1.0.0.sh.sha256"
    ∷ read 1 "usdb-explorer-v1.0.0.tar.gz"
    ∷ read 2 "usdb-explorer-v1.0.0.tar.gz.sha256"
    ∷ []

release_assets-IsComplete_example : IsComplete (release true) (asset_names "v1.0.0" false) assets
unfolding usdb_explorer.Publish.asset_names usdb_explorer.Publish.positive
    usdb_explorer.Publish.digest_of usdb_explorer.Publish.positive_entry
    usdb_explorer.Publish.digest_entry usdb_explorer.Publish.uploaded
    usdb_explorer.Publish.read_asset usdb_explorer.Publish.names_match
    usdb_explorer.Publish.distinct_ids usdb_explorer.Publish.check_release
    usdb_explorer.Publish.listed_assets usdb_explorer.Publish.release_assets
    usdb_explorer.Python.Exn.get usdb_explorer.Python.Exn.get_or usdb_explorer.Python.Exn.each
    usdb_explorer.Python.Value.lookup usdb_explorer.Python.Value.equal
    usdb_explorer.Python.Value.elements usdb_explorer.Python.Text.lt_str
    usdb_explorer.Python.Order.Sorting.sort usdb_explorer.Python.Regex.full_match
release_assets-IsComplete_example =
    release_assets-IsComplete (release true) "v1.0.0" false {assets = assets} refl

abbrev inspection : Bool → Inspection
inspection draft = record {
  fingerprint = "f";
  draft = draft;
  release_id = "v1.0.0";
  release_database_id = 5;
  title = str "Release";
  body = str "Notes";
  assets = assets;
}

-- A world that counts the updates.
abbrev github : GitHub ℕ
github = record {
  read = λ url n. done (release false) n;
  update = λ url fields n. done (release false) (suc n);
  download = λ url n. done (10, hex_text) n;
}

promote-IsPromoted_example : IsPromoted github (inspection true) "f"
unfolding usdb_explorer.Publish.asset_names usdb_explorer.Publish.positive
    usdb_explorer.Publish.digest_of usdb_explorer.Publish.positive_entry
    usdb_explorer.Publish.digest_entry usdb_explorer.Publish.uploaded
    usdb_explorer.Publish.read_asset usdb_explorer.Publish.names_match
    usdb_explorer.Publish.distinct_ids usdb_explorer.Publish.check_release
    usdb_explorer.Publish.listed_assets usdb_explorer.Publish.release_assets
    usdb_explorer.Publish.Promotion.same_assets usdb_explorer.Publish.Promotion.same_release
    usdb_explorer.Publish.Promotion.check_download usdb_explorer.Publish.Promotion.publish
    usdb_explorer.Publish.Promotion.check_published usdb_explorer.Publish.Promotion.promote
    usdb_explorer.Rpc.Calls.◌>>=◌ usdb_explorer.Rpc.Calls.◌>>◌ usdb_explorer.Rpc.Calls.pure
    usdb_explorer.Rpc.Calls.lift usdb_explorer.Rpc.Calls.check usdb_explorer.Rpc.Calls.attempt
    usdb_explorer.Rpc.Calls.for_each usdb_explorer.Python.Exn.get usdb_explorer.Python.Exn.get_or
    usdb_explorer.Python.Exn.subscript usdb_explorer.Python.Exn.each
    usdb_explorer.Python.Value.lookup usdb_explorer.Python.Value.equal
    usdb_explorer.Python.Value.elements usdb_explorer.Python.Text.lt_str
    usdb_explorer.Python.Order.Sorting.sort usdb_explorer.Python.Regex.full_match
promote-IsPromoted_example = promote-IsPromoted github (inspection true) "f" 0 {w = 1} refl

abbrev Untouched : ℕ → Type 0
Untouched n = n ≡ 0

promote-Keeps_example : Keeps Untouched (promote github (inspection false) "f")
promote-Keeps_example =
    promote-Keeps github Untouched (inspection false) "f" (λ url. record { keeps = λ n is. is })
      (λ url. record { keeps = λ n is. is }) refl

abbrev run : String → Value
run conclusion = obj (
    field "head_branch" (str "v1.0.0") (
      field "head_sha" (str "r") (
        field "event" (str "push") (
          field "path" (str ".github/workflows/release-build.yml@refs/tags/v1.0.0")
            (field "status" (str "completed") (field "conclusion" (str conclusion) end))))))

abbrev page : List Value → Value
page runs = obj (field "workflow_runs" (arr (items_of runs)) end)

one_build :
    resolve_build (page [] ∷ page (run "success" ∷ []) ∷ []) "v1.0.0" "r" ≡ ok (run "success")
unfolding usdb_explorer.Publish.is_build usdb_explorer.Publish.only_run
    usdb_explorer.Publish.runs_of usdb_explorer.Publish.resolve_build usdb_explorer.Python.Exn.get
    usdb_explorer.Python.Exn.get_or usdb_explorer.Python.Exn.subscript
    usdb_explorer.Python.Exn.keep_each usdb_explorer.Python.Value.lookup
    usdb_explorer.Python.Value.equal usdb_explorer.Python.Value.elements
    usdb_explorer.Python.Value.items_of usdb_explorer.Python.Text.partition
one_build = refl

failed_build :
    resolve_build (page (run "failure" ∷ []) ∷ []) "v1.0.0" "r"
    ≡ raise (
        value_error
          "expected exactly one successful public release build for this tag and revision")
unfolding usdb_explorer.Publish.is_build usdb_explorer.Publish.only_run
    usdb_explorer.Publish.runs_of usdb_explorer.Publish.resolve_build usdb_explorer.Python.Exn.get
    usdb_explorer.Python.Exn.get_or usdb_explorer.Python.Exn.subscript
    usdb_explorer.Python.Exn.keep_each usdb_explorer.Python.Value.lookup
    usdb_explorer.Python.Value.equal usdb_explorer.Python.Value.elements
    usdb_explorer.Python.Value.items_of usdb_explorer.Python.Text.partition
failed_build = refl
