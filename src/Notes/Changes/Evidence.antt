-- ===== src/Notes/Changes/Evidence.antt =====
-- What `source_changes` reports of two dicts of source inputs.
use usdb_explorer.Prelude.{
  ◌≡◌, sym, ap, subst, String, ◌<>◌, false, not, some, List, [], ◌∷◌, ◌⊎◌, inl, inr, In, contains,
  Bool-cases,
}
use usdb_explorer.Prelude.Members.{
  In-append_left, In-append_right, In-append, In-unless, In-unless_rest, In-unless_first, In-keep,
  contains-In,
}
use usdb_explorer.Python.Value.{Fields, keys, equal}
use usdb_explorer.Python.Text.{lt_str}
use usdb_explorer.Python.Order.Sorting.{In-sort}
use usdb_explorer.Notes.Changes.{
  Impact, restart_required, Change, Inputs, value_at, tracked, value_changes, image_changes, union,
  source_changes,
}

-- Every key of either dict is in the union.
In-union : (xs ys : List String) (s : String) → In s xs ⊎ In s ys → In s (union xs ys)
unfolding union
In-union xs ys s (inl i) = (In-sort lt_str s _).1 (In-append_left s xs _ i)
In-union xs ys s (inr i) = (In-sort lt_str s _).1 (elim (Bool-cases (contains xs s)) [
  | inl old ↦ In-append_left s xs _ (contains-In xs s old)
  | inr new ↦ In-append_right s xs _ (In-keep s (λ y. not (contains xs y)) ys i (rw new))
])

-- The change that is reported of an entry of the inputs.
abbrev pub value_change : Fields → Fields → String → Impact → Change
value_change previous current key impact = record {
  path = key;
  previous = value_at key previous;
  current = value_at key current;
  impact = impact;
}

abbrev pub image_change : Fields → Fields → String → Change
image_change previous current name = record {
  path = "images." <> name;
  previous = value_at name previous;
  current = value_at name current;
  impact = restart_required;
}

value_changes-all :
    (previous current : Fields) (rest : List (String × Impact)) (key : String) (impact : Impact)
    → In (key, impact) rest
    → equal (value_at key previous) (value_at key current) ≡ false
    → In (value_change previous current key impact) (value_changes previous current rest)
unfolding value_changes
value_changes-all previous current [] key impact i h = elim i [ ]
value_changes-all previous current ((k, m) ∷ rest) key impact i h = elim i [
  | inl e ↦
      let same = ap (λ (p : String × Impact). value_change previous current p.0 p.1) e in
      let differ =
        subst
          (λ (p : String × Impact). equal (value_at p.0 previous) (value_at p.0 current) ≡ false) e
          h in
      subst (λ c. In c (value_changes previous current ((k, m) ∷ rest))) (sym same)
        (In-unless_first (value_change previous current k m)
          (equal (value_at k previous) (value_at k current)) (value_changes previous current rest)
          differ)
  | inr j ↦
      In-unless_rest _ (equal (value_at k previous) (value_at k current))
        (value_change previous current k m) (value_changes previous current rest)
        (value_changes-all previous current rest key impact j h)
]

image_changes-all :
    (previous current : Fields) (names : List String) (name : String)
    → In name names
    → equal (value_at name previous) (value_at name current) ≡ false
    → In (image_change previous current name) (image_changes previous current names)
unfolding image_changes
image_changes-all previous current [] name i h = elim i [ ]
image_changes-all previous current (n ∷ names) name i h = elim i [
  | inl e ↦
      subst (λ c. In c (image_changes previous current (n ∷ names)))
        (sym (ap (image_change previous current) e))
        (In-unless_first (image_change previous current n)
          (equal (value_at n previous) (value_at n current)) (image_changes previous current names)
          (subst (λ k. equal (value_at k previous) (value_at k current) ≡ false) e h))
  | inr j ↦
      In-unless_rest _ (equal (value_at n previous) (value_at n current))
        (image_change previous current n) (image_changes previous current names)
        (image_changes-all previous current names name j h)
]

-- Every tracked input and every image that differs is reported with its impact.
pub record IsReported (previous current : Inputs) (changes : List Change) : Type 0 where
  pub values :
      (key : String) (impact : Impact)
      → In (key, impact) tracked
      → equal (value_at key previous.values) (value_at key current.values) ≡ false
      → In (value_change previous.values current.values key impact) changes
  pub images :
      (name : String)
      → In name (keys previous.images) ⊎ In name (keys current.images)
      → equal (value_at name previous.images) (value_at name current.images) ≡ false
      → In (image_change previous.images current.images name) changes
  pub only : (c : Change) → In c changes → equal c.previous c.current ≡ false

value_changes-only :
    (previous current : Fields) (rest : List (String × Impact)) (c : Change)
    → In c (value_changes previous current rest)
    → equal c.previous c.current ≡ false
unfolding value_changes
value_changes-only previous current [] c i = elim i [ ]
value_changes-only previous current ((k, m) ∷ rest) c i =
    elim (In-unless c (equal (value_at k previous) (value_at k current))
      (value_change previous current k m) (value_changes previous current rest) i) [
        | inl j ↦ value_changes-only previous current rest c j
        | inr (differ, same) ↦ subst (λ c. equal c.previous c.current ≡ false) (sym same) differ
      ]

image_changes-only :
    (previous current : Fields) (names : List String) (c : Change)
    → In c (image_changes previous current names)
    → equal c.previous c.current ≡ false
unfolding image_changes
image_changes-only previous current [] c i = elim i [ ]
image_changes-only previous current (n ∷ names) c i =
    elim (In-unless c (equal (value_at n previous) (value_at n current))
      (image_change previous current n) (image_changes previous current names) i) [
        | inl j ↦ image_changes-only previous current names c j
        | inr (differ, same) ↦ subst (λ c. equal c.previous c.current ≡ false) (sym same) differ
      ]

-- The evidence holds a change for each difference, and nothing else.
pub source_changes-IsReported :
    (previous current : Inputs)
    → IsReported previous current (source_changes (some previous) current)
unfolding source_changes
source_changes-IsReported previous current = record {
  values = λ key impact i h.
      In-append_left _ _ _
        (value_changes-all previous.values current.values tracked key impact i h);
  images = λ name i h. In-append_right _ (value_changes previous.values current.values tracked) _ (
      image_changes-all previous.images current.images _ name
        (In-union (keys previous.images) (keys current.images) name i) h);
  only = λ c i. elim (In-append c (value_changes previous.values current.values tracked) _ i) [
    | inl j ↦ value_changes-only previous.values current.values tracked c j
    | inr j ↦ image_changes-only previous.images current.images _ c j
  ];
}
