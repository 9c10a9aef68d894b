-- ===== src/Notes/Version/Previous.antt =====
-- What `previous_published` chooses among the published releases.
use usdb_explorer.Prelude.{
  ◌≡◌, sym, subst, ◌∙◌, String, true, Option, some, List, [], ◌∷◌, arith, In, All,
}
use usdb_explorer.Prelude.Members.{All-In}
use usdb_explorer.Python.Value.{Value}
use usdb_explorer.Python.Exn.{Result, ok, keep_each, bind_ok}
use usdb_explorer.Python.Exn.Loops.{ok-injective, In-each, each-In, In-keep_each, keep_each-In}
use usdb_explorer.Notes.Version.{
  Api, Identity, flatten, is_candidate, tag_name, candidate_tags, confirmed, choose,
  previous_published, tag_identity, highest,
}
use usdb_explorer.Notes.Version.Order.{NotAbove, highest_lem}

tag_identity-release_id :
    (git : List String → Result String) (tag : String) {identity : Identity}
    → tag_identity git tag ≡ ok identity
    → identity.release_id ≡ tag
unfolding tag_identity
tag_identity-release_id git tag h = ground arith

confirmed-release_id :
    (api : Api) (git : List String → Result String) (tag : String) {identity : Identity}
    → confirmed api git tag ≡ ok (some identity)
    → identity.release_id ≡ tag
unfolding confirmed
confirmed-release_id api git tag h = ground (arith, tag_identity-release_id git tag)

module _ (api : Api) (git : List String → Result String) (bound : Option Value)
    (release_id : String) where
  abbrev IsCandidate : Value → Type 0
  IsCandidate release = is_candidate bound release_id release ≡ ok true

  -- The previous release is a candidate on the pages, and no candidate has a tag above it.
  pub record IsPrevious (pages : List (List Value)) (identity : Identity) : Type 0 where
    pub release : Value
    pub listed : In release (flatten pages)
    pub candidate : is_candidate bound release_id release ≡ ok true
    pub named : tag_name release ≡ ok identity.release_id
    pub none_above :
        (other : Value) (tag : String)
        → In other (flatten pages)
        → is_candidate bound release_id other ≡ ok true
        → tag_name other ≡ ok tag
        → NotAbove identity.release_id tag

  chosen :
      (tags : List String) {identity : Identity}
      → choose api git tags ≡ ok (some identity)
      → In identity.release_id tags × All (NotAbove identity.release_id) tags
  unfolding choose
  chosen [] h = cc
  chosen (tag ∷ tags) h =
      subst (λ r. In r (tag ∷ tags) × All (NotAbove r) (tag ∷ tags))
        (sym (confirmed-release_id api git (highest tag tags) h)) (highest_lem tag tags)

  pub previous_published-IsPrevious :
      (pages : List (List Value)) {identity : Identity}
      → api.pages "releases?per_page=100" ≡ ok pages
      → previous_published api git bound release_id ≡ ok (some identity)
      → IsPrevious pages identity
  unfolding previous_published candidate_tags
  previous_published-IsPrevious pages {identity} listing h =
      let (tags, gathered, choice) = bind_ok (candidate_tags api bound release_id) _ h in
      let (pages', same, kept) = bind_ok (api.pages "releases?per_page=100") _ gathered in
      let (candidates, keeping, naming) =
        bind_ok (keep_each (is_candidate bound release_id) (flatten pages')) _ kept in
      let same_pages = ok-injective (sym listing ∙ same) in
      let (place, least) = chosen tags choice in
      let (release, among, named) = In-each tag_name candidates naming place in
      let (listed, candidate) = In-keep_each (is_candidate bound release_id) _ keeping among in
      record {
        release = release;
        listed = rw same_pages listed;
        candidate = candidate;
        named = named;
        none_above = λ other tag at_place is at_tag.
            All-In (NotAbove identity.release_id) tags least (
              each-In tag_name candidates naming
                (keep_each-In (is_candidate bound release_id) _ keeping
                  (subst (λ p. In other (flatten p)) same_pages at_place) is)
                at_tag);
      }
