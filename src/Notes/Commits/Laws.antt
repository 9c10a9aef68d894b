-- ===== src/Notes/Commits/Laws.antt =====
-- When a commit is classified, exempt or unclassified.
use usdb_explorer.Prelude.{
  ◌≡◌, ◌≢◌, String, true, false, List, [], ◌∷◌, arith, all, contains, distinct, eq_iff,
}
use usdb_explorer.Python.Exn.{ok}
use usdb_explorer.Notes.Commits.{Coverage, classified, exempt, unclassified, classify}

-- What each answer says of the trailers of a commit.
abbrev pub Says : List String → List String → Coverage → Type 0
Says known notes classified =
    (notes ≢ []) × (all (contains known) notes ≡ true) × (contains notes "none" ≡ false)
Says known notes exempt = notes ≡ "none" ∷ []
Says known notes unclassified =
    (contains notes "none" ≡ false) × (notes ≢ [] → all (contains known) notes ≡ false)

-- An answer means what it says, and the trailers are distinct.
pub classify-Says :
    (notes known : List String) (context : String) {c : Coverage}
    → classify notes known context ≡ ok c
    → (distinct notes ≡ true) × Says known notes c
unfolding classify
classify-Says [] known context {c = classified} h = ground arith
classify-Says [] known context {c = exempt} h = ground arith
classify-Says [] known context {c = unclassified} h = ground arith
classify-Says (n ∷ []) known context {c = classified} h = ground (arith, eq_iff n "none")
classify-Says (n ∷ []) known context {c = exempt} h = ground (arith, eq_iff n "none")
classify-Says (n ∷ []) known context {c = unclassified} h = ground (arith, eq_iff n "none")
classify-Says (n ∷ m ∷ ns) known context {c = classified} h = ground arith
classify-Says (n ∷ m ∷ ns) known context {c = exempt} h = ground arith
classify-Says (n ∷ m ∷ ns) known context {c = unclassified} h = ground arith
