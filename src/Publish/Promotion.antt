-- ===== src/Publish/Promotion.antt =====
-- `promote` of explorer/publish_release.py, over an explicit world.
use usdb_explorer.Prelude.{
  ℕ, String, ◌<>◌, Bool, true, false, if◌then◌else◌, not, ◌&&◌, ◌=s◌, ◌==◌, List, [], ◌∷◌, any,
}
use usdb_explorer.Python.Value.{Value, Fields, field, end, bool, nat, str, equal}
use usdb_explorer.Python.Exn.{
  Result, ok, raise, value_error, os_error, process_error, rpc_failure, get, subscript,
}
use usdb_explorer.Python.Text.{decimal}
use usdb_explorer.Rpc.Calls.{Io, ◌>>=◌, ◌>>◌, pure, lift, check, attempt, for_each}
use usdb_explorer.Publish.{Asset, release_assets, is_true}

-- The GitHub API, and the anonymous download of a URL: the size of the file, and its digest.
pub record GitHub (W : Type 0) : Type 0 where
  pub read : String → Io W Value
  pub update : String → Fields → Io W Value
  pub download : String → Io W (ℕ × String)

-- The snapshot that was approved, of what `inspect_release` found.
pub record Inspection : Type 0 where
  pub fingerprint : String
  pub draft : Bool
  pub release_id : String
  pub release_database_id : ℕ
  pub title : Value
  pub body : Value
  pub assets : List Asset

abbrev publication : Fields
publication =
    field "draft" (bool false)
      (field "prerelease" (bool true) (field "make_latest" (str "false") end))

abbrev pub same_asset : Asset → Asset → Bool
same_asset a b =
    (a.id == b.id) && (a.name =s b.name) && (a.size == b.size) && (a.digest =s b.digest)

unfoldable pub same_assets : List Asset → List Asset → Bool
same_assets [] [] = true
same_assets (a ∷ more) (b ∷ rest) = same_asset a b && same_assets more rest
same_assets _ _ = false

abbrev pub endpoint_of : Inspection → String
endpoint_of result = "releases/" <> decimal result.release_database_id

abbrev pub url_of : Inspection → Asset → String
url_of result asset =
    "https://github.com/buckyos/usdb-explorer/releases/download/" <> result.release_id <> "/"
    <> asset.name

abbrev pub structured : Inspection → Bool
structured result = any (λ asset. asset.name =s "release-changes.json") result.assets

-- What is public is what was approved.
unfoldable pub same_release : Value → Inspection → Result Bool
same_release published result = elim (subscript published "draft") [
  | raise e ↦ raise e
  | ok draft ↦ elim (get published "prerelease") [
    | raise e ↦ raise e
    | ok prerelease ↦ elim (subscript published "id") [
      | raise e ↦ raise e
      | ok id ↦ elim (get published "name") [
        | raise e ↦ raise e
        | ok title ↦ elim (get published "body") [
          | raise e ↦ raise e
          | ok body ↦ ok (
              equal draft (bool false)
              && is_true prerelease
              && equal id (nat result.release_database_id)
              && equal title result.title
              && equal body result.body)
        ]
      ]
    ]
  ]
]

-- A failed download does not undo the publication, and says so.
abbrev pub as_published : Result (Unit {0}) → Result (Unit {0})
as_published (ok a) = ok a
as_published (raise (value_error m)) =
    raise (value_error "release is published but anonymous download verification failed")
as_published (raise (rpc_failure category m)) =
    raise (value_error "release is published but anonymous download verification failed")
as_published (raise (os_error m)) =
    raise (value_error "release is published but anonymous download verification failed")
as_published (raise process_error) =
    raise (value_error "release is published but anonymous download verification failed")
as_published (raise e) = raise e

module _ {W : Type 0} (api : GitHub W) where
  unfoldable pub check_download : Inspection → Asset → Io W (Unit {0})
  check_download result asset = do
    (size, digest) ← api.download (url_of result asset)
    check ((size == asset.size) && (("sha256:" <> digest) =s asset.digest))
        "anonymous release download differs from approved asset"

  -- The one call that changes a release, for a draft only.
  unfoldable pub publish : Inspection → Io W (Unit {0})
  publish result =
      if result.draft then api.update (endpoint_of result) publication >> pure tt else pure tt

  unfoldable pub check_published : Inspection → Io W (List Asset)
  check_published result = do
    published ← api.read (endpoint_of result)
    assets ← lift (release_assets published result.release_id (structured result))
    same ← lift (same_release published result)
    check (same && same_assets assets result.assets)
        "published release differs from the approved assets or notes"
    pure assets

  unfoldable pub promote : Inspection → String → Io W (Unit {0})
  promote result expected_fingerprint = do
    check (not (expected_fingerprint =s "") && (result.fingerprint =s expected_fingerprint))
        "release changed after preflight; refusing to publish"
    publish result
    assets ← check_published result
    downloads ← attempt (for_each (check_download result) assets)
    lift (as_published downloads)
