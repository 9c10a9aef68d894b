-- ===== src/Python/Text.antt =====
-- The methods of `str` that the program calls, on native texts.
use Prim.Native.Char.{Char, code}
use Prim.Native.String.{String}
use text.Mathlib.Text
use text.Mathlib.TextEquality.{Char-path}
use usdb_explorer.Prelude.{
  ℕ, zero, suc, ◌+◌, ◌*◌, ◌-◌, ◌/◌, ◌%◌, ◌<>◌, ◌≡◌, refl, ap, ap₂, Bool, true, false, not, ◌&&◌,
  ◌||◌, Option, none, some, List, [], ◌∷◌, arith, ltb, leb, ◌==◌, ◌=s◌, length, if◌then◌else◌,
}
use usdb_explorer.Python.Order.{StrictOrder, lex, lex-StrictOrder, ltb-StrictOrder}

-- The code points of a text.
abbrev pub codes : String → List ℕ
codes String.[] = []
codes (String.◌∷◌ c s) = code c ∷ codes s

abbrev pub starts_with : String → String → Bool
starts_with = Text.starts_with

-- `t in s`
unfoldable pub occurs : String → String → Bool
occurs t String.[] = t =s ""
occurs t (String.◌∷◌ c s) = starts_with (String.◌∷◌ c s) t || occurs t s

-- `c in s` for one character.
abbrev pub has_code : ℕ → String → Bool
has_code d String.[] = false
has_code d (String.◌∷◌ c s) = (code c == d) || has_code d s

-- `str.isspace` of one character, which is also `\s` of `re`.
unfoldable pub is_space : ℕ → Bool
is_space c =
    (leb 9 c && leb c 13)
    || (leb 28 c && leb c 32)
    || (c == 133)
    || (c == 160)
    || (c == 5760)
    || (leb 8192 c && leb c 8202)
    || (c == 8232)
    || (c == 8233)
    || (c == 8239)
    || (c == 8287)
    || (c == 12288)

unfoldable pub lstrip : String → String
unfolding is_space
lstrip String.[] = ""
lstrip (String.◌∷◌ c s) = let rest = lstrip s in if is_space (code c) then rest else String.◌∷◌ c s

unfoldable pub rstrip : String → String
unfolding is_space
rstrip String.[] = ""
rstrip (String.◌∷◌ c s) =
    let rest = rstrip s in if (rest =s "") && is_space (code c) then "" else String.◌∷◌ c rest

-- `s.rstrip(c)` for one character.
unfoldable pub rstrip_code : ℕ → String → String
rstrip_code d String.[] = ""
rstrip_code d (String.◌∷◌ c s) =
    let rest = rstrip_code d s in if (rest =s "") && (code c == d) then "" else String.◌∷◌ c rest

-- `s.strip()`
unfoldable pub strip : String → String
unfolding lstrip rstrip
strip s = rstrip (lstrip s)

abbrev pub is_digit : ℕ → Bool
is_digit c = leb b'0' c && leb c b'9'

abbrev only_digits : String → Bool
only_digits String.[] = true
only_digits (String.◌∷◌ c s) = is_digit (code c) && only_digits s

-- `s.isdigit()` of an ASCII text.
abbrev pub isdigit : String → Bool
isdigit s = not (s =s "") && only_digits s

-- The small letter of each ASCII capital.
abbrev small_letters : List (ℕ × Char)
small_letters =
    (b'A', "a")
    ∷ (b'B', "b")
    ∷ (b'C', "c")
    ∷ (b'D', "d")
    ∷ (b'E', "e")
    ∷ (b'F', "f")
    ∷ (b'G', "g")
    ∷ (b'H', "h")
    ∷ (b'I', "i")
    ∷ (b'J', "j")
    ∷ (b'K', "k")
    ∷ (b'L', "l")
    ∷ (b'M', "m")
    ∷ (b'N', "n")
    ∷ (b'O', "o")
    ∷ (b'P', "p")
    ∷ (b'Q', "q")
    ∷ (b'R', "r")
    ∷ (b'S', "s")
    ∷ (b'T', "t")
    ∷ (b'U', "u")
    ∷ (b'V', "v")
    ∷ (b'W', "w")
    ∷ (b'X', "x")
    ∷ (b'Y', "y")
    ∷ (b'Z', "z")
    ∷ []

abbrev lower_char : List (ℕ × Char) → Char → Char
lower_char [] c = c
lower_char ((capital, small) ∷ letters) c =
    let other = lower_char letters c in if code c == capital then small else other

-- `s.lower()`, for texts whose capitals are ASCII.
unfoldable pub lower : String → String
lower String.[] = ""
lower (String.◌∷◌ c s) = String.◌∷◌ (lower_char small_letters c) (lower s)

-- The number that decimal digits spell behind `n`.
unfoldable pub decimal_value : ℕ → String → ℕ
decimal_value n String.[] = n
decimal_value n (String.◌∷◌ c s) = decimal_value (n * 10 + (code c - b'0')) s

-- `s.partition(sep)` for one character: what stands before it, and what behind, if it is there.
unfoldable pub partition : ℕ → String → String × Option String
partition sep String.[] = ("", none)
partition sep (String.◌∷◌ c s) =
    let (before, behind) = partition sep s in
    if code c == sep then ("", some s) else (String.◌∷◌ c before, behind)

-- One more character before the first part.
abbrev onto_first : Char → List String → List String
onto_first c [] = String.◌∷◌ c "" ∷ []
onto_first c (part ∷ parts) = String.◌∷◌ c part ∷ parts

-- `s.split(sep)` for one character: at least one part.
unfoldable pub split : ℕ → String → List String
split sep String.[] = "" ∷ []
split sep (String.◌∷◌ c s) =
    let parts = split sep s in if code c == sep then "" ∷ parts else onto_first c parts

-- `s[1:]`
abbrev pub behind_first : String → String
behind_first String.[] = ""
behind_first (String.◌∷◌ c s) = s

abbrev pub digit : ℕ → String
digit n =
    if n == 0
    then "0"
    else if n == 1
    then "1"
    else if n == 2
    then "2"
    else if n == 3
    then "3"
    else if n == 4
    then "4"
    else if n == 5
    then "5"
    else if n == 6
    then "6"
    else if n == 7
    then "7"
    else if n == 8
    then "8"
    else "9"

-- A number of at most `fuel` digits.
digits : ℕ → ℕ → String
digits zero n = ""
digits (suc fuel) n =
    let before = digits fuel (n / 10) in if ltb n 10 then digit n else before <> digit (n % 10)

-- `str(n)`; `n` has at most `n + 1` digits.
unfoldable pub decimal : ℕ → String
unfolding digits
decimal n = digits (suc n) n

-- `<` of two texts, by code points.
unfoldable pub lt_str : String → String → Bool
unfolding lex
lt_str s t = lex ltb (codes s) (codes t)

codes-injective : (s t : String) → codes s ≡ codes t → s ≡ t
codes-injective String.[] String.[] h = refl
codes-injective String.[] (String.◌∷◌ d t) h = absurd (omega (arith, ap length h))
codes-injective (String.◌∷◌ c s) String.[] h = absurd (omega (arith, ap length h))
codes-injective (String.◌∷◌ c s) (String.◌∷◌ d t) h =
    ap₂ String.◌∷◌ (Char-path c d (cc)) (codes-injective s t (cc))

pub lt_str-StrictOrder : StrictOrder lt_str
unfolding lt_str
lt_str-StrictOrder =
    let o : StrictOrder (lex ltb) = lex-StrictOrder ltb-StrictOrder in
    record {
      irrefl = λ s. o.irrefl (codes s);
      trans = λ s t u. o.trans (codes s) (codes t) (codes u);
      connected = λ s t h k. codes-injective s t (o.connected (codes s) (codes t) h k);
    }
