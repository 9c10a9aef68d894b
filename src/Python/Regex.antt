-- ===== src/Python/Regex.antt =====
-- `re.fullmatch` for the patterns of the program, by derivatives.
use usdb_explorer.Prelude.{
  ℕ, zero, suc, String, Bool, true, false, ◌&&◌, ◌||◌, List, [], ◌∷◌, leb, if◌then◌else◌, any,
}
use usdb_explorer.Python.Text.{codes}

pub data Regex : Type 0 where
  never : Regex
  empty : Regex
  -- One character in one of the ranges.
  class : List (ℕ × ℕ) → Regex
  then_ : Regex → Regex → Regex
  either : Regex → Regex → Regex
  star : Regex → Regex

abbrev in_class : List (ℕ × ℕ) → ℕ → Bool
in_class ranges c = any (λ (lo, hi). leb lo c && leb c hi) ranges

nullable : Regex → Bool
nullable never = false
nullable empty = true
nullable (class _) = false
nullable (then_ r s) = nullable r && nullable s
nullable (either r s) = nullable r || nullable s
nullable (star r) = true

-- The smart constructors keep derivatives small.
abbrev seq : Regex → Regex → Regex
seq never s = never
seq empty s = s
seq r s = then_ r s

abbrev alt : Regex → Regex → Regex
alt never s = s
alt r never = r
alt r s = either r s

derive : ℕ → Regex → Regex
unfolding nullable
derive c never = never
derive c empty = never
derive c (class ranges) = if in_class ranges c then empty else never
derive c (then_ r s) =
    let left = seq (derive c r) s in
    let both = alt left (derive c s) in if nullable r then both else left
derive c (either r s) = alt (derive c r) (derive c s)
derive c (star r) = seq (derive c r) (star r)

matches : Regex → List ℕ → Bool
unfolding nullable derive
matches r [] = nullable r
matches r (c ∷ s) = matches (derive c r) s

-- `re.fullmatch(r, s) is not None`
unfoldable pub full_match : Regex → String → Bool
unfolding matches
full_match r s = matches r (codes s)

abbrev pub char : ℕ → Regex
char c = class ((c, c) ∷ [])

abbrev pub literal : List ℕ → Regex
literal [] = empty
literal (c ∷ s) = then_ (char c) (literal s)

abbrev pub text : String → Regex
text s = literal (codes s)

abbrev pub repeat : ℕ → Regex → Regex
repeat zero r = empty
repeat (suc n) r = then_ r (repeat n r)

abbrev pub plus : Regex → Regex
plus r = then_ r (star r)

abbrev pub optional : Regex → Regex
optional r = either empty r

abbrev pub digit : Regex
digit = class ((b'0', b'9') ∷ [])

abbrev pub hex_digit : Regex
hex_digit = class ((b'0', b'9') ∷ (b'a', b'f') ∷ [])

abbrev pub any_hex_digit : Regex
any_hex_digit = class ((b'0', b'9') ∷ (b'a', b'f') ∷ (b'A', b'F') ∷ [])
