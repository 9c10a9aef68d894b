-- ===== src/Faucet/Amount.antt =====
-- The exact value of an amount that `amount` of explorer/faucet_config.py accepts.
use usdb_explorer.Prelude.{
  ◌≡◌, refl, sym, ap, subst, ◌∙◌, String, ◌<>◌, false, ◌&&◌, ℕ, zero, suc, ◌+◌, ◌-◌, ◌*◌, ◌^◌, ◌≤◌,
  ◌<◌, length, ◌==◌, arith,
}
use Prim.Native.Char.{code}
use native.Mathlib.Nat.{mul_assoc, mul_comm, add-mul, mul-pos}
use text.Mathlib.TextLemmas.{nil-append, cons-append}
use usdb_explorer.Python.Value.{Value, str}
use usdb_explorer.Python.Exn.{ok}
use usdb_explorer.Python.Text.{decimal_value, codes}
use usdb_explorer.Faucet.{amount, whole, fraction, is_zero, ljust, zeros}

decimal_value-append :
    (n : ℕ) (s t : String) → decimal_value n (s <> t) ≡ decimal_value (decimal_value n s) t
unfolding decimal_value
decimal_value-append n String.[] t = rw nil-append refl
decimal_value-append n (String.◌∷◌ c s) t =
    rw (cons-append, decimal_value-append (n * 10 + (code c - b'0')) s t)

times_ten : (n x k d : ℕ) → (n * 10 + x) * k + d ≡ n * (k * 10) + (x * k + d)
times_ten n x k d = ground (arith, add-mul (n * 10) x k, mul_assoc n 10 k, mul_comm 10 k)

pow_ten : (m : ℕ) → 10 ^ suc m ≡ 10 ^ m * 10
pow_ten m = omega arith

-- Digits behind `n` move it one place each.
decimal_value-start :
    (n : ℕ) (s : String) → decimal_value n s ≡ n * 10 ^ length (codes s) + decimal_value 0 s
unfolding decimal_value
decimal_value-start n String.[] = omega arith
decimal_value-start n (String.◌∷◌ c s) = grind (
  arith,
  decimal_value-start (n * 10 + (code c - b'0')) s,
  decimal_value-start (code c - b'0') s,
  times_ten n (code c - b'0') (10 ^ length (codes s)) (decimal_value 0 s),
  pow_ten (length (codes s)),
)

decimal_value-zeros : (n k : ℕ) → decimal_value n (zeros k) ≡ n * 10 ^ k
unfolding decimal_value
decimal_value-zeros n zero = omega arith
decimal_value-zeros n (suc k) = grind (
  arith,
  decimal_value-zeros (n * 10) k,
  pow_ten k,
  mul_assoc n 10 (10 ^ k),
  mul_comm 10 (10 ^ k),
)

-- The value of a text with a dot, in units of `10 ^ -decimals`.
abbrev pub units : String → ℕ → ℕ
units s decimals =
    decimal_value 0 (whole s) * 10 ^ decimals
    + decimal_value 0 (fraction s) * 10 ^ (decimals - length (codes (fraction s)))

pow_sum : (j k : ℕ) → 10 ^ (j + k) ≡ 10 ^ j * 10 ^ k
pow_sum zero k = let start : 0 + k ≡ k = omega arith in omega (arith, ap (λ e. 10 ^ e) start)
pow_sum (suc j) k = grind (
  arith,
  pow_sum j k,
  pow_ten j,
  pow_ten (j + k),
  mul_assoc (10 ^ j) 10 (10 ^ k),
  mul_comm 10 (10 ^ k),
  mul_assoc (10 ^ j) (10 ^ k) 10,
)

pow_pos : (k : ℕ) → 0 < 10 ^ k
pow_pos zero = omega arith
pow_pos (suc k) = omega (arith, pow_pos k, pow_ten k)

split_units : (w f l k : ℕ) → (w * 10 ^ l + f) * 10 ^ k ≡ w * 10 ^ (l + k) + f * 10 ^ k
split_units w f l k =
    add-mul (w * 10 ^ l) f (10 ^ k)
    ∙ ap (λ m. m + f * 10 ^ k) (mul_assoc w (10 ^ l) (10 ^ k) ∙ ap (λ p. w * p) (sym (pow_sum l k)))

ljust_value :
    (w f : String) (d : ℕ)
    → length (codes f) ≤ d
    → decimal_value 0 (w <> ljust d f)
      ≡ decimal_value 0 w * 10 ^ d + decimal_value 0 f * 10 ^ (d - length (codes f))
ljust_value w f d h =
    let l = length (codes f) in
    let k = d - l in
    decimal_value-append 0 w (ljust d f)
    ∙ decimal_value-append (decimal_value 0 w) f (zeros k)
    ∙ decimal_value-zeros (decimal_value (decimal_value 0 w) f) k
    ∙ ap (λ n. n * 10 ^ k) (decimal_value-start (decimal_value 0 w) f)
    ∙ split_units (decimal_value 0 w) (decimal_value 0 f) l k
    ∙ ap (λ e. decimal_value 0 w * 10 ^ e + decimal_value 0 f * 10 ^ k) (omega arith)

sum_pos : (a b j k : ℕ) → (a == 0) && (b == 0) ≡ false → 0 < a * 10 ^ j + b * 10 ^ k
sum_pos zero zero j k h = cc
sum_pos zero (suc b) j k h = omega (arith, mul-pos {m = suc b} (omega arith) (pow_pos k))
sum_pos (suc a) b j k h = omega (arith, mul-pos {m = suc a} (omega arith) (pow_pos j))

accepted :
    (s : String) (decimals : ℕ) {n : ℕ}
    → amount (str s) decimals ≡ ok n
    → (is_zero s ≡ false)
      × (length (codes (fraction s)) ≤ decimals)
      × (decimal_value 0 (whole s <> ljust decimals (fraction s)) ≡ n)
unfolding amount
accepted s decimals h = (ground arith, ground arith, ground arith)

-- An accepted amount is a text, and its value is that of the text in units of `10 ^ -decimals`,
-- exactly: the fraction has at most `decimals` digits, and the value is positive.
pub amount-units :
    (v : Value) (decimals : ℕ) {n : ℕ}
    → amount v decimals ≡ ok n
    → (s : String) × (v ≡ str s)
      × (n ≡ units s decimals)
      × (length (codes (fraction s)) ≤ decimals)
      × (0 < n)
unfolding amount
amount-units (str s) decimals {n} h =
    let (form, small, h1) = accepted s decimals h in
    let at_units = ljust_value (whole s) (fraction s) decimals small in
    (
      s,
      refl,
      sym h1 ∙ at_units,
      small,
      subst (λ m. 0 < m) (sym at_units ∙ h1)
          (sum_pos (decimal_value 0 (whole s)) (decimal_value 0 (fraction s)) decimals _ form),
    )
amount-units _ decimals h = cc
