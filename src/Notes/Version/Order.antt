-- ===== src/Notes/Version/Order.antt =====
-- The order of release tags is a strict total order of their keys, and a prerelease of a version
-- stands before the release.
use text.Mathlib.TextLemmas.{nil-append, cons-append}
use usdb_explorer.Prelude.{
  ℕ, ◌≡◌, refl, sym, ap, subst, String, ◌<>◌, true, false, inl, inr, none, some, List, [], ◌∷◌,
  arith, All, In, Bool-cases,
}
use usdb_explorer.Python.Order.{
  StrictOrder, lex_pair, ltb-StrictOrder, lt_bool-StrictOrder, lex-StrictOrder,
  lex_pair-StrictOrder, asymm, le_trans,
}
use usdb_explorer.Python.Text.{has_code, behind_first, partition, lt_str-StrictOrder}
use usdb_explorer.Notes.Version.{
  Identifier, num, word, lt_identifier, lt_key, key_from, key_of, highest,
}

lt_identifier_irrefl : (a : Identifier) → lt_identifier a a ≡ false
lt_identifier_irrefl (num n) = ground arith
lt_identifier_irrefl (word s) = lt_str-StrictOrder.irrefl s

lt_identifier_trans :
    (a b c : Identifier)
    → lt_identifier a b ≡ true
    → lt_identifier b c ≡ true
    → lt_identifier a c ≡ true
lt_identifier_trans (word s) (word t) (word u) h k = lt_str-StrictOrder.trans s t u h k
lt_identifier_trans (num a) (num b) c h k = ground arith
lt_identifier_trans a b c h k = ground arith

lt_identifier-connected :
    (a b : Identifier) → lt_identifier a b ≡ false → lt_identifier b a ≡ false → a ≡ b
lt_identifier-connected (word s) (word t) h k = ap word (lt_str-StrictOrder.connected s t h k)
lt_identifier-connected a b h k = ground arith

lt_identifier-StrictOrder : StrictOrder lt_identifier
lt_identifier-StrictOrder = record {
  irrefl = lt_identifier_irrefl;
  trans = lt_identifier_trans;
  connected = lt_identifier-connected;
}

-- `<` of version keys is irreflexive and transitive, and two keys that neither precedes are equal.
pub lt_key-StrictOrder : StrictOrder lt_key
unfolding lt_key
lt_key-StrictOrder =
    lex_pair-StrictOrder (lex-StrictOrder ltb-StrictOrder)
      (lex_pair-StrictOrder lt_bool-StrictOrder (lex-StrictOrder lt_identifier-StrictOrder))

abbrev pub NotAbove : String → String → Type 0
NotAbove best tag = lt_key (key_of best) (key_of tag) ≡ false

NotAbove-trans : (a b c : String) → NotAbove a b → NotAbove b c → NotAbove a c
NotAbove-trans a b c h k = le_trans lt_key-StrictOrder (key_of c) (key_of b) (key_of a) k h

highest_above :
    (best tag : String) (tags : List String)
    → lt_key (key_of best) (key_of tag) ≡ true
    → highest best (tag ∷ tags) ≡ highest tag tags
unfolding highest
highest_above best tag tags h = rw h

highest_below :
    (best tag : String) (tags : List String)
    → lt_key (key_of best) (key_of tag) ≡ false
    → highest best (tag ∷ tags) ≡ highest best tags
unfolding highest
highest_below best tag tags h = rw h

In-skip : {A : Type 0} {x y : A} (z : A) (xs : List A) → In x (y ∷ xs) → In x (y ∷ z ∷ xs)
In-skip z xs (inl e) = inl e
In-skip z xs (inr i) = inr (inr i)

abbrev pub IsHighest : String → List String → Type 0
IsHighest best tags = In best tags × All (NotAbove best) tags

-- The choice is one of the tags, and no tag is above it.
pub highest_lem : (best : String) (tags : List String) → IsHighest (highest best tags) (best ∷ tags)
highest_lem best [] = unfold highest in (inl refl, (lt_key-StrictOrder.irrefl (key_of best), tt))
highest_lem best (tag ∷ tags) =
    let from_tag = highest_lem tag tags in
    let from_best = highest_lem best tags in
    let goal = λ (r : String). IsHighest r (best ∷ tag ∷ tags) in
    elim (Bool-cases (lt_key (key_of best) (key_of tag))) [
      | inl above ↦
          let after = asymm lt_key-StrictOrder (key_of best) (key_of tag) above in
          subst goal (sym (highest_above best tag tags above))
            (inr from_tag.0, (NotAbove-trans _ tag best from_tag.1.0 after, from_tag.1))
      | inr below ↦
          let (least, rest) = from_best.1 in
          subst goal (sym (highest_below best tag tags below))
            (In-skip tag tags from_best.0, (least, (NotAbove-trans _ best tag least below, rest)))
    ]

partition_of_lacking : (sep : ℕ) (s : String) → has_code sep s ≡ false → partition sep s ≡ (s, none)
unfolding partition
partition_of_lacking sep String.[] h = refl
partition_of_lacking sep (String.◌∷◌ c s) h = ground (arith, partition_of_lacking sep s)

partition-append :
    (s t : String) → has_code b'-' s ≡ false → partition b'-' (s <> ("-" <> t)) ≡ (s, some t)
unfolding partition
partition-append String.[] t h = rw (nil-append, cons-append, nil-append) refl
partition-append (String.◌∷◌ c s) t h = rw cons-append (ground (arith, partition-append s t))

behind_first-v : (s : String) → behind_first ("v" <> s) ≡ s
behind_first-v s = rw (cons-append, nil-append)

key_of-prerelease :
    (version suffix : String)
    → has_code b'-' version ≡ false
    → key_of ("v" <> (version <> ("-" <> suffix))) ≡ key_from (version, some suffix)
unfolding key_of
key_of-prerelease version suffix h = rw (behind_first-v, partition-append version suffix h)

key_of-release :
    (version : String)
    → has_code b'-' version ≡ false
    → key_of ("v" <> version) ≡ key_from (version, none)
unfolding key_of
key_of-release version h = rw (behind_first-v, partition_of_lacking b'-' version h)

-- A prerelease `vX-S` stands before the release `vX`, for every X without a dash and every S.
pub prerelease-lt-release :
    (version suffix : String)
    → has_code b'-' version ≡ false
    → lt_key (key_of ("v" <> (version <> ("-" <> suffix)))) (key_of ("v" <> version)) ≡ true
prerelease-lt-release version suffix h =
    rw (key_of-prerelease version suffix h, key_of-release version h)
      (unfold lt_key lex_pair in
        ground (arith, (lex-StrictOrder ltb-StrictOrder).irrefl (key_from (version, none)).0))
