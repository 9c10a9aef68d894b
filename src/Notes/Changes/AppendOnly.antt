-- ===== src/Notes/Changes/AppendOnly.antt =====
-- What `range_changes` guarantees of the fragments of two revisions.
use usdb_explorer.Prelude.{
  ◌≡◌, refl, sym, ap, subst, String, true, false, Option, none, some, List, [], ◌∷◌, inl, inr,
  arith, In, ◌=s◌, eq_iff, Option-cases,
}
use usdb_explorer.Python.Exn.{ok, bind_ok, require_ok}
use usdb_explorer.Python.Exn.Loops.{ok-injective}
use usdb_explorer.Python.Text.{lt_str-StrictOrder}
use usdb_explorer.Python.Regex.{full_match}
use usdb_explorer.Python.Order.{
  WeakOrder, WeakOrder-key, StrictOrder-IsWeak, ltb-StrictOrder, lex_pair-StrictOrder,
}
use usdb_explorer.Python.Order.Sorting.{sort, IsSorted, sort-IsSorted, In-sort}
use usdb_explorer.Notes.Version.{revision_re}
use usdb_explorer.Notes.Commits.{commit_records}
use usdb_explorer.Notes.Changes.{
  Tools, Entry, find_entry, fragments_at, NewFragment, sort_key, lt_fragment, require_kept,
  new_fragments, Range, published_fragments, range_changes,
}

lt_fragment-WeakOrder : WeakOrder lt_fragment
unfolding lt_fragment
lt_fragment-WeakOrder =
    WeakOrder-key sort_key
      (StrictOrder-IsWeak (lex_pair-StrictOrder ltb-StrictOrder lt_str-StrictOrder))

-- The entry of `e`'s path is there, with the bytes of `e`.
abbrev pub IsKept : List Entry → Entry → Type 0
IsKept after e = (d : Entry) × (find_entry e.path after ≡ some d) × (d.raw ≡ e.raw)

kept_test :
    (e : Entry) (o : Option Entry)
    → (elim o [ none ↦ false | some d ↦ d.raw =s e.raw ]) ≡ true
    → (d : Entry) × (o ≡ some d) × (d.raw ≡ e.raw)
kept_test e none h = cc
kept_test e (some d) h = (d, refl, (eq_iff d.raw e.raw).0 h)

require_kept_sound :
    (before after : List Entry) (e : Entry)
    → require_kept before after ≡ ok tt
    → In e before
    → IsKept after e
unfolding require_kept
require_kept_sound [] after e h i = elim i [ ]
require_kept_sound (d ∷ before) after e h i =
    let (first, rest) = require_ok _ _ (require_kept before after) h in
    elim i [
      | inl same ↦ subst (IsKept after) (sym same) (kept_test d (find_entry d.path after) first)
      | inr j ↦ require_kept_sound before after e rest j
    ]

-- A new fragment stands in `after` under a path that `before` lacks.
pub record IsNew (before after : List Entry) (n : NewFragment) : Type 0 where
  pub entry : Entry
  pub there : In entry after
  pub fresh : find_entry entry.path before ≡ none
  pub is_entry : n ≡ record { fragment = entry.fragment; source_path = entry.path }

abbrev as_new : Entry → NewFragment
as_new e = record { fragment = e.fragment; source_path = e.path }

new_fragments_known :
    (before after : List Entry) (e d : Entry)
    → find_entry e.path before ≡ some d
    → new_fragments before (e ∷ after) ≡ new_fragments before after
unfolding new_fragments
new_fragments_known before after e d h = ground arith

new_fragments_fresh :
    (before after : List Entry) (e : Entry)
    → find_entry e.path before ≡ none
    → new_fragments before (e ∷ after) ≡ as_new e ∷ new_fragments before after
unfolding new_fragments
new_fragments_fresh before after e h = ground arith

IsNew-later :
    (before after : List Entry) (e : Entry) {n : NewFragment}
    → IsNew before after n
    → IsNew before (e ∷ after) n
IsNew-later before after e w = record {
  entry = w.entry;
  there = inr w.there;
  fresh = w.fresh;
  is_entry = w.is_entry;
}

new_fragments-IsNew :
    (before after : List Entry) {n : NewFragment}
    → In n (new_fragments before after)
    → IsNew before after n
new_fragments-IsNew before [] i = unfold new_fragments in elim i [ ]
new_fragments-IsNew before (e ∷ after) {n} i = elim (Option-cases (find_entry e.path before)) [
  | inl absent ↦ elim (subst (In n) (new_fragments_fresh before after e absent) i) [
    | inl same ↦ record { entry = e; there = inl refl; fresh = absent; is_entry = same }
    | inr j ↦ IsNew-later before after e (new_fragments-IsNew before after j)
  ]
  | inr (d, known) ↦ IsNew-later before after e (
      new_fragments-IsNew before after
        (subst (In n) (new_fragments_known before after e d known) i))
]

new_fragments-all :
    (before after : List Entry) (e : Entry)
    → In e after
    → find_entry e.path before ≡ none
    → In (as_new e) (new_fragments before after)
new_fragments-all before [] e i fresh = elim i [ ]
new_fragments-all before (d ∷ after) e i fresh = elim i [
  | inl same ↦
      subst (In (as_new e))
        (sym (
          new_fragments_fresh before after d
            (subst (λ x. find_entry x.path before ≡ none) same fresh)))
        (inl (ap as_new same))
  | inr j ↦ elim (Option-cases (find_entry d.path before)) [
    | inl absent ↦
        subst (In (as_new e)) (sym (new_fragments_fresh before after d absent))
          (inr (new_fragments-all before after e j fresh))
    | inr (c, known) ↦
        subst (In (as_new e)) (sym (new_fragments_known before after d c known))
          (new_fragments-all before after e j fresh)
  ]
]

-- The fragments that two revisions have, and what the range between them lists.
pub record IsAppendOnly (before after : List Entry) (changes : List NewFragment) : Type 0 where
  pub kept : (e : Entry) → In e before → IsKept after e
  pub only_new : (n : NewFragment) → In n changes → IsNew before after n
  pub all_new :
      (e : Entry)
      → In e after
      → find_entry e.path before ≡ none
      → In (record { fragment = e.fragment; source_path = e.path }) changes
  pub sorted : IsSorted lt_fragment changes

-- A range that is accepted keeps every published fragment byte for byte, lists exactly the
-- fragments under new paths, and lists them by type and change ID.
pub range_changes-IsAppendOnly :
    (t : Tools) (revision previous : String) {r : Range}
    → range_changes t revision (some previous) ≡ ok r
    → (before after : List Entry) × (fragments_at t previous ≡ ok before)
      × (fragments_at t revision ≡ ok after)
      × IsAppendOnly before after r.changes
unfolding range_changes published_fragments
range_changes-IsAppendOnly t revision previous h =
    let (_, h1) = require_ok (full_match revision_re revision) _ _ h in
    let (before, at_before, h2) = bind_ok (published_fragments t revision (some previous)) _ h1 in
    let (_, h3) = require_ok (full_match revision_re previous) _ _ at_before in
    let (_, _, is_before) = bind_ok (t.git _) _ h3 in
    let (after, is_after, h4) = bind_ok (fragments_at t revision) _ h2 in
    let (_, kept, h5) = bind_ok (require_kept before after) _ h4 in
    let (commits, _, h6) = bind_ok (commit_records t.git revision (some previous) _) _ h5 in
    let result : Range = record {
      changes = sort lt_fragment (new_fragments before after);
      commits = commits;
    } in
    (
      before,
      after,
      is_before,
      is_after,
      subst (λ (r : Range). IsAppendOnly before after r.changes) {x = result} (ok-injective h6)
          (record {
            kept = λ e. require_kept_sound before after e kept;
            only_new = λ n i. new_fragments-IsNew before after ((In-sort lt_fragment n _).0 i);
            all_new =
                λ e i fresh. (In-sort lt_fragment _ _).1 (new_fragments-all before after e i fresh);
            sorted = sort-IsSorted lt_fragment-WeakOrder _;
          }),
    )
