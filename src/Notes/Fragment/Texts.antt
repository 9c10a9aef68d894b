-- ===== src/Notes/Fragment/Texts.antt =====
-- What `_require_text` and `_require_text_array` accept, and that sorting keeps it.
use mathlib.Core.List.{map}
use usdb_explorer.Prelude.{
  ℕ, suc, ◌+◌, ◌≡◌, refl, ap, ap₂, subst, ◌∙◌, String, Bool, true, not, ◌&&◌, ◌||◌, List, [], ◌∷◌,
  arith, length, all, All, contains, distinct, leb, ltb, ◌=s◌, eq_iff,
}
use usdb_explorer.Python.Value.{Value, null, str, arr, elements, items_of}
use usdb_explorer.Python.Exn.{ok, bind_ok, require_ok}
use usdb_explorer.Python.Exn.Loops.{ok-injective}
use usdb_explorer.Python.Text.{codes, strip, has_code, lt_str}
use usdb_explorer.Python.Order.Sorting.{insert, sort, All-sort}
use usdb_explorer.Notes.Fragment.{require_text_of, require_text, require_texts, require_text_array}

-- Trimmed, not empty, on one line and not too long.
pub record IsText (max_length : ℕ) (s : String) : Type 0 where
  pub trimmed : ((strip s =s s) && not (s =s "")) ≡ true
  pub one_line : (not (has_code 10 s) && not (has_code 13 s)) ≡ true
  pub bounded : leb (length (codes s)) max_length ≡ true

require_text_of_sound :
    (value context : String) (max_length : ℕ) {s : String}
    → require_text_of value context max_length ≡ ok s
    → (value ≡ s) × IsText max_length s
unfolding require_text_of
require_text_of_sound value context max_length h =
    let (trimmed, h1) = require_ok _ _ _ h in
    let (one_line, h2) = require_ok _ _ _ h1 in
    let (bounded, h3) = require_ok _ _ _ h2 in
    let same = ok-injective h3 in
    (
      same,
      subst (IsText max_length) same
          (record { trimmed = trimmed; one_line = one_line; bounded = bounded }),
    )

pub require_text_sound :
    (v : Value) (context : String) (max_length : ℕ) {s : String}
    → require_text v context max_length ≡ ok s
    → (v ≡ str s) × IsText max_length s
unfolding require_text
require_text_sound (str value) context max_length h =
    let (same, text) = require_text_of_sound value context max_length h in (ap str same, text)
require_text_sound null context max_length h = cc
require_text_sound _ context max_length h = cc

pub require_text_complete :
    (s context : String) (max_length : ℕ)
    → IsText max_length s
    → require_text (str s) context max_length ≡ ok s
unfolding require_text
require_text_complete s context max_length t = rw (t.trimmed, t.one_line, t.bounded)

require_texts_sound :
    (context : String) (max_length index : ℕ) (items : List Value) {xs : List String}
    → require_texts context max_length index items ≡ ok xs
    → (items ≡ map str xs) × All (IsText max_length) xs
unfolding require_texts
require_texts_sound context max_length index [] h =
    subst (λ ys. ([] ≡ map str ys) × All (IsText max_length) ys) (ok-injective h) (refl, tt)
require_texts_sound context max_length index (v ∷ items) h =
    let (s, first, more) = bind_ok (require_text v _ max_length) _ h in
    let (rest, loop, same) = bind_ok (require_texts context max_length (index + 1) items) _ more in
    let (is_s, text) = require_text_sound v _ max_length first in
    let (are, texts) = require_texts_sound context max_length (index + 1) items loop in
    subst (λ ys. ((v ∷ items) ≡ map str ys) × All (IsText max_length) ys) (ok-injective same)
      (ap₂ ◌∷◌ is_s are, (text, texts))

require_texts_complete :
    (context : String) (max_length index : ℕ) (xs : List String)
    → All (IsText max_length) xs
    → require_texts context max_length index (map str xs) ≡ ok xs
unfolding require_texts
require_texts_complete context max_length index [] h = refl
require_texts_complete context max_length index (x ∷ xs) (t, h) = rw (
  require_text_complete x _ max_length t,
  require_texts_complete context max_length (index + 1) xs h,
)

-- A list that the array check accepts.
pub record IsTextArray (allow_empty : Bool) (max_items max_length : ℕ) (xs : List String)
    : Type 0 where
  pub filled : (allow_empty || ltb 0 (length xs)) ≡ true
  pub short : leb (length xs) max_items ≡ true
  pub texts : All (IsText max_length) xs
  pub no_duplicates : distinct xs ≡ true

elements-items_of : (vs : List Value) → elements (items_of vs) ≡ vs
unfolding elements items_of
elements-items_of [] = refl
elements-items_of (v ∷ vs) = ap (◌∷◌ v) (elements-items_of vs)

length-map : (xs : List String) → length (map str xs) ≡ length xs
length-map [] = refl
length-map (x ∷ xs) = ap suc (length-map xs)

pub require_text_array_sound :
    (v : Value) (context : String) (allow_empty : Bool) (max_items max_length : ℕ)
    {xs : List String}
    → require_text_array v context allow_empty max_items max_length ≡ ok xs
    → IsTextArray allow_empty max_items max_length xs
unfolding require_text_array
require_text_array_sound (arr items) context allow_empty max_items max_length h =
    let (filled, h1) = require_ok _ _ _ h in
    let (short, h2) = require_ok _ _ _ h1 in
    let (ys, loop, h3) = bind_ok (require_texts context max_length 0 (elements items)) _ h2 in
    let (no_duplicates, h4) = require_ok _ _ _ h3 in
    let (are, texts) = require_texts_sound context max_length 0 (elements items) loop in
    let same_length = ap length are ∙ length-map ys in
    subst (IsTextArray allow_empty max_items max_length) (ok-injective h4) (record {
      filled = subst (λ n. (allow_empty || ltb 0 n) ≡ true) same_length filled;
      short = subst (λ n. leb n max_items ≡ true) same_length short;
      texts = texts;
      no_duplicates = no_duplicates;
    })
require_text_array_sound null context allow_empty max_items max_length h = cc
require_text_array_sound _ context allow_empty max_items max_length h = cc

pub require_text_array_complete :
    (context : String) (allow_empty : Bool) (max_items max_length : ℕ) (xs : List String)
    → IsTextArray allow_empty max_items max_length xs
    → require_text_array (arr (items_of (map str xs))) context allow_empty max_items max_length
      ≡ ok xs
unfolding require_text_array
require_text_array_complete context allow_empty max_items max_length xs t = rw (
  elements-items_of (map str xs),
  length-map xs,
  t.filled,
  t.short,
  require_texts_complete context max_length 0 xs t.texts,
  t.no_duplicates,
)

length-insert : (x : String) (ys : List String) → length (insert lt_str x ys) ≡ suc (length ys)
unfolding insert
length-insert x [] = refl
length-insert x (y ∷ ys) = ground (arith, length-insert x ys)

length-sort : (xs : List String) → length (sort lt_str xs) ≡ length xs
unfolding sort
length-sort [] = refl
length-sort (x ∷ xs) = length-insert x (sort lt_str xs) ∙ ap suc (length-sort xs)

contains-insert :
    (x z : String) (ys : List String)
    → contains (insert lt_str x ys) z ≡ ((x =s z) || contains ys z)
unfolding insert
contains-insert x z [] = refl
contains-insert x z (y ∷ ys) = ground (arith, contains-insert x z ys)

contains-sort : (xs : List String) (z : String) → contains (sort lt_str xs) z ≡ contains xs z
unfolding sort
contains-sort [] z = refl
contains-sort (x ∷ xs) z =
    contains-insert x z (sort lt_str xs) ∙ ap (λ b. (x =s z) || b) (contains-sort xs z)

distinct-insert :
    (x : String) (ys : List String)
    → distinct (insert lt_str x ys) ≡ (not (contains ys x) && distinct ys)
unfolding insert
distinct-insert x [] = refl
distinct-insert x (y ∷ ys) =
    ground (arith, distinct-insert x ys, contains-insert x y ys, eq_iff x y, eq_iff y x)

distinct-sort : (xs : List String) → distinct (sort lt_str xs) ≡ distinct xs
unfolding sort
distinct-sort [] = refl
distinct-sort (x ∷ xs) =
    distinct-insert x (sort lt_str xs)
    ∙ ap₂ (λ a b. not a && b) (contains-sort xs x) (distinct-sort xs)

pub IsTextArray-sort :
    (allow_empty : Bool) (max_items max_length : ℕ) (xs : List String)
    → IsTextArray allow_empty max_items max_length xs
    → IsTextArray allow_empty max_items max_length (sort lt_str xs)
IsTextArray-sort allow_empty max_items max_length xs t = record {
  filled = rw (length-sort xs) t.filled;
  short = rw (length-sort xs) t.short;
  texts = All-sort lt_str (IsText max_length) xs t.texts;
  no_duplicates = rw (distinct-sort xs) t.no_duplicates;
}

all→All : {A : Type 0} (p : A → Bool) (xs : List A) → all p xs ≡ true → All (λ x. p x ≡ true) xs
all→All p [] h = tt
all→All p (x ∷ xs) h = ground (arith, all→All p xs)

All→all : {A : Type 0} (p : A → Bool) (xs : List A) → All (λ x. p x ≡ true) xs → all p xs ≡ true
All→all p [] h = refl
All→all p (x ∷ xs) (e, h) = rw e (All→all p xs h)

pub all-sort :
    (p : String → Bool) (xs : List String) → all p xs ≡ true → all p (sort lt_str xs) ≡ true
all-sort p xs h = All→all p (sort lt_str xs) (All-sort lt_str (λ x. p x ≡ true) xs (all→All p xs h))
