-- ===== src/Config/Memory.antt =====
-- The `resources` of `load_config` in explorer/public_config.py, which `require_resources` reads.
use usdb_explorer.Prelude.{
  ℕ, ◌≤◌, String, ◌≡◌, refl, ap, subst, ◌∙◌, inl, inr, ◌⊎◌, Bool, true, false, if◌then◌else◌, ◌&&◌,
  ◌=s◌, eq_iff, leb, [], ◌∷◌, Option, none, some, Option-cases, some-injective, Bool-cases, arith,
}
use usdb_explorer.Prelude.Int.{pos, negsuc}
use usdb_explorer.Python.Value.{
  Value, Fields, field, end, obj, str, int, nat, lookup, has, lookup-assign,
}
use usdb_explorer.Python.Exn.{Result, ok, ◌>>=◌, ◌>>◌, require, bind_ok, require_ok}
use usdb_explorer.Python.Exn.Loops.{ok-injective}
use usdb_explorer.Faucet.{set_default}
use usdb_explorer.Config.{fields}

abbrev budget_key : String
budget_key = "memory_budget_gib"

abbrev other_key : String
other_key = "other_services_memory_gib"

-- What the loop over the items lets through.
unfoldable pub is_number : String → Value → Bool
is_number key (str s) = (key =s other_key) && (s =s "auto")
is_number key (int (pos n)) = leb (if key =s budget_key then 6 else 0) n
is_number key _ = false

unfoldable pub check_numbers : Fields → Result (Unit {0})
check_numbers end = ok tt
check_numbers (field key number rest) = do
  require (is_number key number) "invalid resource budget"
  check_numbers rest

-- The budget, and the part of the other services, which a node on this host has.
unfoldable pub resource_defaults : Bool → Fields → Fields
resource_defaults local resources =
    set_default other_key (if local then str "auto" else nat 0)
      (set_default budget_key (nat 6) resources)

-- `value.setdefault("resources", {})`
abbrev given : Option Value → Value
given none = obj end
given (some value) = value

unfoldable pub load_resources : Bool → Option Value → Result Fields
load_resources local value = do
  resources ← fields (given value) [] (budget_key ∷ other_key ∷ [])
  check_numbers (resource_defaults local resources)
  ok (resource_defaults local resources)

-- A budget of 6 GiB or more, and a part for the other services that is a number or is left to
-- the containers that run.
pub record IsBudgeted (resources : Fields) : Type 0 where
  pub budget : ℕ
  pub of_budget : lookup budget_key resources ≡ some (nat budget)
  pub enough : 6 ≤ budget
  pub other :
      (lookup other_key resources ≡ some (str "auto"))
      ⊎ ((n : ℕ) × (lookup other_key resources ≡ some (nat n)))

is_number-lookup :
    (d : Fields) {u : Unit {0}} (key : String) (v : Value)
    → check_numbers d ≡ ok u
    → lookup key d ≡ some v
    → is_number key v ≡ true
unfolding check_numbers lookup
is_number-lookup end key v h at = cc
is_number-lookup (field j w rest) key v h at =
    let (good, h1) = require_ok (is_number j w) _ (check_numbers rest) h in
    elim (Bool-cases (j =s key)) [
      | inl same ↦
          subst (λ k. is_number k v ≡ true) (ground (arith, eq_iff j key))
            (subst (λ x. is_number j x ≡ true) (some-injective (rw same at at)) good)
      | inr other ↦ is_number-lookup rest key v h1 (rw other at at)
    ]

has-none : (k : String) (d : Fields) → lookup k d ≡ none → has k d ≡ false
has-none k d missing = ap (λ o. elim o [ none ↦ false | some v ↦ true ]) missing

has-some : (k : String) (d : Fields) {w : Value} → lookup k d ≡ some w → has k d ≡ true
has-some k d there = ap (λ o. elim o [ none ↦ false | some v ↦ true ]) there

set_default-lookup :
    (k : String) (v : Value) (d : Fields) → (w : Value) × (lookup k (set_default k v d) ≡ some w)
unfolding set_default
set_default-lookup k v d = elim (Option-cases (lookup k d)) [
  | inl missing ↦ (v, rw (has-none k d missing) (ground (arith, eq_iff k k, lookup-assign k k v d)))
  | inr (w, there) ↦ (w, rw (has-some k d there) there)
]

set_default-other :
    (k j : String) (v : Value) (d : Fields)
    → (k =s j) ≡ false
    → lookup j (set_default k v d) ≡ lookup j d
unfolding set_default
set_default-other k j v d differ = elim (Bool-cases (has k d)) [
  | inl there ↦ rw there refl
  | inr missing ↦ rw missing (ground (arith, differ, lookup-assign k j v d))
]

budget_of : (v : Value) → is_number budget_key v ≡ true → (n : ℕ) × (v ≡ nat n) × (6 ≤ n)
unfolding is_number
budget_of (obj x) good = cc
budget_of (Value.arr x) good = cc
budget_of (str x) good = cc
budget_of (Value.bool x) good = cc
budget_of (Value.float x) good = cc
budget_of Value.null good = cc
budget_of (int (pos n)) good = (n, refl, ground arith)
budget_of (int (negsuc n)) good = cc

other_of : (v : Value) → is_number other_key v ≡ true → (v ≡ str "auto") ⊎ ((n : ℕ) × (v ≡ nat n))
unfolding is_number
other_of (obj x) good = cc
other_of (Value.arr x) good = cc
other_of (Value.bool x) good = cc
other_of (Value.float x) good = cc
other_of Value.null good = cc
other_of (str x) good = inl (ap str (ground (arith, eq_iff x "auto")))
other_of (int (pos n)) good = inr (n, refl)
other_of (int (negsuc n)) good = cc

budgeted :
    (local : Bool) (found : Fields) {u : Unit {0}}
    → check_numbers (resource_defaults local found) ≡ ok u
    → IsBudgeted (resource_defaults local found)
unfolding resource_defaults
budgeted local found numbers =
    let spare = if local then str "auto" else nat 0 in
    let with_budget = set_default budget_key (nat 6) found in
    let (v, at_budget) = set_default-lookup budget_key (nat 6) found in
    let (w, at_other) = set_default-lookup other_key spare with_budget in
    let still = set_default-other other_key budget_key spare with_budget refl ∙ at_budget in
    let (n, is_n, enough) =
      budget_of v (is_number-lookup (resource_defaults local found) budget_key v numbers still) in
    record {
      budget = n;
      of_budget = still ∙ ap some is_n;
      enough = enough;
      other =
          elim (other_of w
            (is_number-lookup (resource_defaults local found) other_key w numbers at_other)) [
              | inl e ↦ inl (at_other ∙ ap some e)
              | inr (m, e) ↦ inr (m, at_other ∙ ap some e)
            ];
    }

-- Accepted resources have both numbers, which the defaults give where the settings do not.
pub load_resources-IsBudgeted :
    (local : Bool) (value : Option Value) {resources : Fields}
    → load_resources local value ≡ ok resources
    → IsBudgeted resources
unfolding load_resources resource_defaults
load_resources-IsBudgeted local value h =
    let (found, _, h1) = bind_ok (fields (given value) [] (budget_key ∷ other_key ∷ [])) _ h in
    let (_, numbers, h2) = bind_ok (check_numbers (resource_defaults local found)) _ h1 in
    subst IsBudgeted (ok-injective h2) (budgeted local found numbers)
