-- ===== src/Faucet.antt =====
-- explorer/faucet_config.py: the optional policy of the testnet faucet.
use usdb_explorer.Prelude.{
  ◌≡◌, String, ◌<>◌, Bool, true, false, if◌then◌else◌, not, ◌&&◌, ◌||◌, ℕ, zero, suc, ◌+◌, ◌-◌, ◌*◌,
  List, [], ◌∷◌, Option, none, some, ◌=s◌, ◌==◌, ltb, leb, all, contains, length,
}
use usdb_explorer.Prelude.Int.{pos, leb_ℤ}
use usdb_explorer.Python.Value.{
  Value, Fields, field, end, obj, str, bool, int, nat, lookup, assign, has, keys,
}
use usdb_explorer.Python.Exn.{
  Result, ok, raise, Exn, value_error, type_error, ◌>>=◌, ◌>>◌, require, refuse, subscript,
}
use usdb_explorer.Python.Text.{partition, decimal_value, codes}
use usdb_explorer.Python.Regex.{
  Regex, class, then_, either, repeat, plus, optional, digit, char, full_match,
}
pub mod Amount
pub mod Policy
mod Tests

-- `r"(0|[1-9][0-9]{0,30})(\.[0-9]+)?"`
abbrev pub amount_re : Regex
amount_re =
    then_ (either (char b'0') (then_ (class ((b'1', b'9') ∷ [])) (repeat 30 (optional digit))))
      (optional (then_ (char b'.') (plus digit)))

-- `s.ljust(width, "0")`
abbrev zeros : ℕ → String
zeros zero = ""
zeros (suc n) = String.◌∷◌ "0" (zeros n)

abbrev pub ljust : ℕ → String → String
ljust width s = s <> zeros (width - length (codes s))

-- The parts of `value.partition(".")` before and behind the dot.
abbrev pub whole : String → String
whole s = (partition b'.' s).0

abbrev pub fraction : String → String
fraction s = elim (partition b'.' s).1 [ none ↦ "" | some f ↦ f ]

-- `Decimal(value) <= 0` of a text that the pattern matches.
abbrev pub is_zero : String → Bool
is_zero s = (decimal_value 0 (whole s) == 0) && (decimal_value 0 (fraction s) == 0)

unfoldable pub amount : Value → ℕ → Result ℕ
amount (str s) decimals =
    if not (full_match amount_re s) || ltb decimals (length (codes (fraction s))) || is_zero s
    then raise (value_error "faucet amounts must be positive decimal strings")
    else ok (decimal_value 0 (whole s <> ljust decimals (fraction s)))
amount _ decimals = raise (value_error "faucet amounts must be positive decimal strings")

abbrev pub defaults : List (String × Value)
defaults =
    ("gas_reserve", str "0.01")
    ∷ ("max_gas_price_gwei", str "100")
    ∷ ("cooldown_seconds", nat 86400)
    ∷ ("ip_daily_claims", nat 10)
    ∷ ("ip_requests_per_minute", nat 10)
    ∷ ("confirmations", nat 3)
    ∷ []

abbrev pub faucet_keys : List String
faucet_keys =
    "enabled" ∷ "claim_amount" ∷ "daily_budget" ∷ "gas_reserve" ∷ "max_gas_price_gwei"
    ∷ "cooldown_seconds" ∷ "ip_daily_claims" ∷ "ip_requests_per_minute" ∷ "confirmations" ∷ []

-- `value.setdefault(key, default)`
unfoldable pub set_default : String → Value → Fields → Fields
set_default key default value = if has key value then value else assign key default value

unfoldable pub set_defaults : List (String × Value) → Fields → Fields
set_defaults [] value = value
set_defaults ((key, default) ∷ more) value = set_defaults more (set_default key default value)

-- The keys with the least and the greatest value of each.
abbrev pub limits : List (String × (ℕ × ℕ))
limits =
    ("cooldown_seconds", (60, 31536000))
    ∷ ("ip_daily_claims", (1, 10000))
    ∷ ("ip_requests_per_minute", (1, 1000))
    ∷ ("confirmations", (1, 100))
    ∷ []

abbrev pub in_limits : Value → ℕ × ℕ → Bool
in_limits (int n) bounds = leb_ℤ (pos bounds.0) n && leb_ℤ n (pos bounds.1)
in_limits _ bounds = false

unfoldable pub check_limits : Fields → List (String × (ℕ × ℕ)) → Result (Unit {0})
check_limits value [] = ok tt
check_limits value ((key, bounds) ∷ more) = do
  v ← subscript (obj value) key
  require (in_limits v bounds) ("invalid faucet policy: " <> key)
  check_limits value more

-- `value.get(key)`, which is `None` for a key that is not there.
abbrev pub value_of : String → Fields → Value
value_of key value = elim (lookup key value) [ none ↦ Value.null | some v ↦ v ]

-- What an enabled policy, with its defaults, has to satisfy.
unfoldable pub check_policy : Fields → Result (Unit {0})
check_policy value = do
  claim ← amount (value_of "claim_amount" value) 18
  budget ← amount (value_of "daily_budget" value) 18
  reserve ← subscript (obj value) "gas_reserve"
  amount reserve 18
  price ← subscript (obj value) "max_gas_price_gwei"
  gas ← amount price 9
  refuse (ltb budget (claim + 21000 * gas)) "faucet daily_budget must cover one claim"
  check_limits value limits

-- The faucet's own dict, by its switch: it has no key that is not known, and its policy is checked
-- if it is enabled.
unfoldable pub check_switch : Option Value → Fields → Result Fields
check_switch (some (bool enabled)) value = do
  require (all (contains faucet_keys) (keys value)) "invalid faucet configuration fields"
  if not enabled
      then ok value
      else do check_policy (set_defaults defaults value); ok (set_defaults defaults value)
check_switch _ value = raise (value_error "invalid faucet configuration fields")

unfoldable pub check_faucet : Value → Result Fields
check_faucet (obj value) = check_switch (lookup "enabled" value) value
check_faucet _ = raise (value_error "invalid faucet configuration fields")

-- The configuration as the call leaves it: the defaults are written into its faucet.
unfoldable pub validate_faucet : Fields → Result Fields
validate_faucet config = elim (lookup "faucet" config) [
  | none ↦ ok config
  | some faucet ↦ do value ← check_faucet faucet; ok (assign "faucet" (obj value) config)
]
