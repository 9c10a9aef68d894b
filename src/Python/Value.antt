-- ===== src/Python/Value.antt =====
-- The values that `json.loads` gives, and Python's `==`, `get` and truth on them.
use usdb_explorer.Prelude.{
  ℕ, suc, String, ◌≡◌, refl, Bool, true, false, not, ◌&&◌, Option, none, some, List, [], ◌∷◌, arith,
  ◌==◌, ◌=s◌, eq_iff, if◌then◌else◌,
}
use usdb_explorer.Prelude.Int.{ℤ, pos, eqb_ℤ}

-- `float` is a number with a fraction, by its literal. A number that is written with a fraction
-- or an exponent and is still whole, such as 1.0, is outside of the model.
mutual
  -- A dict, with its keys in the order of their insertion.
  pub data Fields : Type 0 where
    end : Fields
    field : String → Value → Fields → Fields

  -- A list.
  pub data Items : Type 0 where
    nil : Items
    cons : Value → Items → Items

  pub data Value : Type 0 where
    obj : Fields → Value
    arr : Items → Value
    str : String → Value
    bool : Bool → Value
    int : ℤ → Value
    float : String → Value
    null : Value

abbrev pub nat : ℕ → Value
nat n = int (pos n)

-- `d.get(key)` of a dict.
unfoldable pub lookup : String → Fields → Option Value
lookup k end = none
lookup k (field j v rest) = if j =s k then some v else lookup k rest

-- `d[key] = value`: the place of a key that is there stays.
unfoldable pub assign : String → Value → Fields → Fields
assign k v end = field k v end
assign k v (field j w rest) = if j =s k then field j v rest else field j w (assign k v rest)

-- `d.pop(key, None)`
unfoldable pub discard : String → Fields → Fields
discard k end = end
discard k (field j w rest) = let more = discard k rest in if j =s k then more else field j w more

pub lookup-assign :
    (k j : String) (v : Value) (d : Fields)
    → lookup j (assign k v d) ≡ (if k =s j then some v else lookup j d)
unfolding lookup assign
lookup-assign k j v end = refl
lookup-assign k j v (field i w rest) =
    ground (arith, eq_iff k j, eq_iff i k, eq_iff i j, lookup-assign k j v rest)

abbrev pub has : String → Fields → Bool
has k d = elim (lookup k d) [ none ↦ false | some _ ↦ true ]

unfoldable pub keys : Fields → List String
keys end = []
keys (field k v rest) = k ∷ keys rest

unfoldable pub elements : Items → List Value
elements nil = []
elements (cons v rest) = v ∷ elements rest

unfoldable pub items_of : List Value → Items
items_of [] = nil
items_of (v ∷ rest) = cons v (items_of rest)

-- `len(d)`
unfoldable pub size : Fields → ℕ
size end = 0
size (field k v rest) = suc (size rest)

abbrev bit : Bool → ℤ
bit true = pos 1
bit false = pos 0

-- `==`: a Boolean equals the number 0 or 1, and the order of a dict's keys does not count.
unfoldable mutual
  pub equal : Value → Value → Bool
  equal null null = true
  equal (bool a) (bool b) = eqb_ℤ (bit a) (bit b)
  equal (bool a) (int b) = eqb_ℤ (bit a) b
  equal (int a) (bool b) = eqb_ℤ a (bit b)
  equal (int a) (int b) = eqb_ℤ a b
  equal (float a) (float b) = a =s b
  equal (str a) (str b) = a =s b
  equal (arr a) (arr b) = equal_items a b
  equal (obj a) (obj b) = (size a == size b) && within a b
  equal _ _ = false

  pub equal_items : Items → Items → Bool
  equal_items nil nil = true
  equal_items (cons a more) (cons b rest) = equal a b && equal_items more rest
  equal_items _ _ = false

  pub within : Fields → Fields → Bool
  within end b = true
  within (field k v rest) b =
      (elim (lookup k b) [ none ↦ false | some w ↦ equal v w ]) && within rest b

-- `bool(v)`
unfoldable pub truthy : Value → Bool
truthy null = false
truthy (bool b) = b
truthy (int n) = not (eqb_ℤ n (pos 0))
truthy (float s) = true
truthy (str s) = not (s =s "")
truthy (arr nil) = false
truthy (arr _) = true
truthy (obj end) = false
truthy (obj _) = true
