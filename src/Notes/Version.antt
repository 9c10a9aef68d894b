-- ===== src/Notes/Version.antt =====
-- The order of release tags and the choice of the previous release: `version_key`,
-- `tag_identity` and `previous_published` of scripts/release_notes.py.
pub mod Order
pub mod Previous
use usdb_explorer.Prelude.{
  ℕ, ◌≡◌, String, ◌<>◌, Bool, true, false, not, ◌&&◌, Option, none, some, List, [], ◌∷◌, ◌++◌, ◌=s◌,
  ltb, if◌then◌else◌,
}
use mathlib.Core.List.{map}
use usdb_explorer.Python.Value.{Value, null, bool, str, truthy, equal}
use usdb_explorer.Python.Exn.{
  Exn, type_error, value_error, Result, ok, raise, ◌>>=◌, ◌>>◌, require, get, get_or, subscript,
  each, keep_each,
}
use usdb_explorer.Python.Text.{
  isdigit, decimal_value, partition, split, behind_first, strip, lt_str,
}
use usdb_explorer.Python.Regex.{
  Regex, class, then_, text, char, digit, plus, optional, repeat, hex_digit, full_match,
}
use usdb_explorer.Python.Order.{lex, lex_pair, lt_bool}

-- `[0-9]+\.[0-9]+\.[0-9]+(?:-[a-z0-9.]+)?` behind a prefix.
abbrev pub numbered : Regex → Regex
numbered prefix = then_ prefix (
    then_ (plus digit) (
      then_ (char b'.') (
        then_ (plus digit) (
          then_ (char b'.') (
            then_ (plus digit) (
              optional (
                then_ (char b'-')
                  (plus (class ((b'a', b'z') ∷ (b'0', b'9') ∷ (b'.', b'.') ∷ []))))))))))

abbrev pub release_id_re : Regex
release_id_re = numbered (char b'v')

abbrev pub revision_re : Regex
revision_re = repeat 40 hex_digit

-- `(0, int(part))` or `(1, part)`.
pub data Identifier : Type 0 where
  num : ℕ → Identifier
  word : String → Identifier

abbrev pub identifier : String → Identifier
identifier part = if isdigit part then num (decimal_value 0 part) else word part

-- `<` of two such pairs.
abbrev pub lt_identifier : Identifier → Identifier → Bool
lt_identifier (num a) (num b) = ltb a b
lt_identifier (num a) (word t) = true
lt_identifier (word s) (num b) = false
lt_identifier (word s) (word t) = lt_str s t

-- The key `(major, minor, patch, not separator, identifiers)`. The pattern fixes that there are
-- three numbers, so comparing the numbers as a list first is comparing the tuple.
abbrev pub Key : Type 0
Key = List ℕ × (Bool × List Identifier)

unfoldable pub lt_key : Key → Key → Bool
unfolding lex_pair lex lt_str
lt_key = lex_pair (lex ltb) (lex_pair lt_bool (lex lt_identifier))

abbrev pub key_from : String × Option String → Key
key_from (version, none) = (map (decimal_value 0) (split b'.' version), (true, []))
key_from (version, some suffix) =
    (map (decimal_value 0) (split b'.' version), (false, map identifier (split b'.' suffix)))

unfoldable pub key_of : String → Key
key_of tag = key_from (partition b'-' (behind_first tag))

unfoldable pub version_key : Value → Result Key
unfolding key_of
version_key (str tag) = do
  require (full_match release_id_re tag) "expected a vX.Y.Z release tag"
  ok (key_of tag)
version_key _ = raise (value_error "expected a vX.Y.Z release tag")

pub record Identity : Type 0 where
  pub release_id : String
  pub tag_object : String
  pub source_revision : String

-- `re.fullmatch(r, v)` refuses what is no text.
abbrev pub full_match_value : Regex → Value → Result Bool
full_match_value r (str s) = ok (full_match r s)
full_match_value r _ = raise type_error

-- `a <= b` of two texts.
abbrev pub le_value : Value → Value → Result Bool
le_value (str a) (str b) = ok (not (lt_str b a))
le_value _ _ = raise type_error

-- `release.get("draft") is False`
abbrev pub is_false : Value → Bool
is_false (bool false) = true
is_false _ = false

-- The GitHub API: one document, or all pages of a list, of an endpoint.
pub record Api : Type 0 where
  pub json : String → Result Value
  pub pages : String → Result (List (List Value))

-- `git(repo, ...)`: the output of a successful command.
module _ (git : List String → Result String) where
  unfoldable pub tag_identity : String → Result Identity
  unfolding version_key
  tag_identity tag = do
    version_key (str tag)
    let ref = "refs/tags/" <> tag
    kind ← git ("cat-file" ∷ "-t" ∷ ref ∷ [])
    require (strip kind =s "tag") "release tag must be annotated"
    object ← git ("rev-parse" ∷ ref ∷ [])
    commit ← git ("rev-parse" ∷ (ref <> "^{commit}") ∷ [])
    ok (record { release_id = tag; tag_object = strip object; source_revision = strip commit })

-- The bound on the publication date, if there is one.
abbrev pub published_in_time : Option Value → Value → Result Bool
published_in_time none release = ok true
published_in_time (some bound) release = do
  date ← subscript release "published_at"
  le_value date bound

-- `a and b` where the parts may raise.
infixr 35 ◌andalso◌
abbrev pub ◌andalso◌ : Result Bool → Result Bool → Result Bool
ok true andalso m = m
ok false andalso m = ok false
raise e andalso m = raise e

abbrev pub below_release : Value → Value → Result Bool
below_release release_id release = do
  tag ← subscript release "tag_name"
  key ← version_key tag
  bound ← version_key release_id
  ok (lt_key key bound)

abbrev pub not_draft : Value → Result Bool
not_draft release = do draft ← get release "draft"; ok (is_false draft)

abbrev pub is_dated : Value → Result Bool
is_dated release = do date ← get release "published_at"; ok (truthy date)

abbrev pub has_release_tag : Value → Result Bool
has_release_tag release = do
  tag ← get_or release "tag_name" (str "")
  full_match_value release_id_re tag

-- The condition of the comprehension in `previous_published`.
unfoldable pub is_candidate : Option Value → String → Value → Result Bool
unfolding version_key
is_candidate published_before release_id release =
    not_draft release
    andalso is_dated release
    andalso published_in_time published_before release
    andalso has_release_tag release
    andalso below_release (str release_id) release

-- `release["tag_name"]` of a candidate.
abbrev pub tag_name : Value → Result String
tag_name release = elim (subscript release "tag_name") [
  | ok (str tag) ↦ ok tag
  | ok _ ↦ raise type_error
  | raise e ↦ raise e
]

-- `max(tags, key=version_key)` keeps the first of the greatest.
unfoldable pub highest : String → List String → String
unfolding key_of lt_key
highest best [] = best
highest best (tag ∷ tags) = highest (if lt_key (key_of best) (key_of tag) then tag else best) tags

-- `for page in pages for release in page`
abbrev pub flatten : List (List Value) → List Value
flatten [] = []
flatten (page ∷ pages) = page ++ flatten pages

-- The published tag on the remote is the local annotated tag.
abbrev same_tag : Value → Identity → Result Bool
same_tag remote identity =
    (do kind ← get remote "type"; ok (equal kind (str "tag")))
    andalso (do sha ← get remote "sha"; ok (equal sha (str identity.tag_object)))

-- The tags of the candidates, in the order of the pages.
unfoldable pub candidate_tags : Api → Option Value → String → Result (List String)
unfolding is_candidate
candidate_tags api published_before release_id = do
  pages ← api.pages "releases?per_page=100"
  candidates ← keep_each (is_candidate published_before release_id) (flatten pages)
  each tag_name candidates

module _ (api : Api) (git : List String → Result String) where
  -- Behind the choice of the tag: its local identity, compared with the remote tag.
  unfoldable pub confirmed : String → Result (Option Identity)
  unfolding tag_identity
  confirmed tag = do
    identity ← tag_identity git tag
    reply ← api.json ("git/ref/tags/" <> tag)
    remote ← subscript reply "object"
    same ← same_tag remote identity
    require same "previous published tag differs from local annotated tag"
    ok (some identity)

  choose : List String → Result (Option Identity)
  choose [] = ok none
  choose (tag ∷ tags) = confirmed (highest tag tags)

  unfoldable pub previous_published : Option Value → String → Result (Option Identity)
  unfolding candidate_tags confirmed choose highest
  previous_published published_before release_id = do
    tags ← candidate_tags api published_before release_id
    choose tags
