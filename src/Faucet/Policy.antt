-- ===== src/Faucet/Policy.antt =====
-- What `validate_faucet` of explorer/faucet_config.py guarantees of an enabled faucet.
use usdb_explorer.Prelude.{
  ◌≡◌, refl, sym, ap, subst, ◌∙◌, ◌⊎◌, inl, inr, String, true, false, ℕ, ◌+◌, ◌*◌, ◌≤◌, List, [],
  ◌∷◌, Option, none, some, ◌=s◌, all, contains, In, arith, ltb, Option-cases,
}
use usdb_explorer.Python.Value.{Value, Fields, obj, bool, lookup, assign, keys, lookup-assign}
use usdb_explorer.Python.Exn.{ok, require_ok, refuse_ok, bind_ok, subscript, ◌>>=◌}
use usdb_explorer.Python.Exn.Loops.{ok-injective}
use usdb_explorer.Faucet.{
  amount, value_of, limits, in_limits, check_limits, check_policy, check_faucet, check_switch,
  validate_faucet, set_default, set_defaults, defaults, faucet_keys,
}

-- An enabled policy: its amounts are exact, a day's budget pays for one claim with the greatest
-- fee of its transaction, and its limits are in their ranges.
pub record IsFunded (value : Fields) : Type 0 where
  pub claim : ℕ
  pub budget : ℕ
  pub gas : ℕ
  pub at_claim : amount (value_of "claim_amount" value) 18 ≡ ok claim
  pub at_budget : amount (value_of "daily_budget" value) 18 ≡ ok budget
  pub at_gas : amount (value_of "max_gas_price_gwei" value) 9 ≡ ok gas
  pub covers : claim + 21000 * gas ≤ budget
  pub limited :
      (key : String) (bounds : ℕ × ℕ)
      → In (key, bounds) limits
      → in_limits (value_of key value) bounds ≡ true

subscript-value_of :
    (value : Fields) (key : String) {v : Value}
    → subscript (obj value) key ≡ ok v
    → v ≡ value_of key value
unfolding subscript
subscript-value_of value key h = ground arith

check_limits-all :
    (value : Fields) (bounds : List (String × (ℕ × ℕ)))
    → check_limits value bounds ≡ ok tt
    → (key : String) (b : ℕ × ℕ) → In (key, b) bounds
    → in_limits (value_of key value) b ≡ true
unfolding check_limits
check_limits-all value [] h j c i = elim i [ ]
check_limits-all value ((key, b) ∷ more) h j c i =
    let (v, at_v, h1) = bind_ok (subscript (obj value) key) _ h in
    let (within, h2) = require_ok (in_limits v b) _ _ h1 in
    elim i [
      | inl same ↦
          subst (λ p. in_limits (value_of p.0 value) p.1 ≡ true) (sym same)
            (subst (λ w. in_limits w b ≡ true) (subscript-value_of value key at_v) within)
      | inr later ↦ check_limits-all value more h2 j c later
    ]

check_policy-IsFunded : (value : Fields) → check_policy value ≡ ok tt → IsFunded value
unfolding check_policy
check_policy-IsFunded value h =
    let (claim, at_claim, h1) = bind_ok (amount (value_of "claim_amount" value) 18) _ h in
    let (budget, at_budget, h2) = bind_ok (amount (value_of "daily_budget" value) 18) _ h1 in
    let (r, _, h3) = bind_ok (subscript (obj value) "gas_reserve") _ h2 in
    let (_, _, h4) = bind_ok (amount r 18) _ h3 in
    let (price, at_price, h5) = bind_ok (subscript (obj value) "max_gas_price_gwei") _ h4 in
    let (gas, at_gas, h6) = bind_ok (amount price 9) _ h5 in
    let (covered, h7) = refuse_ok (ltb budget (claim + 21000 * gas)) _ _ h6 in
    record {
      claim = claim;
      budget = budget;
      gas = gas;
      at_claim = at_claim;
      at_budget = at_budget;
      at_gas = subst (λ v. amount v 9 ≡ ok gas) (subscript-value_of value _ at_price) at_gas;
      covers = ground arith;
      limited = check_limits-all value limits h7;
    }

lookup-set_default :
    (k j : String) (v : Value) (d : Fields)
    → k =s j ≡ false
    → lookup j (set_default k v d) ≡ lookup j d
unfolding set_default
lookup-set_default k j v d h = ground (arith, lookup-assign k j v d)

-- The defaults do not touch the switch.
lookup-enabled : (d : Fields) → lookup "enabled" (set_defaults defaults d) ≡ lookup "enabled" d
unfolding set_defaults
lookup-enabled d = rw (
  lookup-set_default "confirmations" "enabled",
  lookup-set_default "ip_requests_per_minute" "enabled",
  lookup-set_default "ip_daily_claims" "enabled",
  lookup-set_default "cooldown_seconds" "enabled",
  lookup-set_default "max_gas_price_gwei" "enabled",
  lookup-set_default "gas_reserve" "enabled",
)

-- What the configuration holds behind an accepted call.
abbrev pub IsChecked : Fields → Type 0
IsChecked config =
    (lookup "faucet" config ≡ none)
    ⊎ ((value : Fields) × (lookup "faucet" config ≡ some (obj value))
        × ((lookup "enabled" value ≡ some (bool false))
            ⊎ ((lookup "enabled" value ≡ some (bool true)) × IsFunded value)))

check_switch_sound :
    (switch : Option Value) (d : Fields) {value : Fields}
    → lookup "enabled" d ≡ switch
    → check_switch switch d ≡ ok value
    → (lookup "enabled" value ≡ some (bool false))
      ⊎ ((lookup "enabled" value ≡ some (bool true)) × IsFunded value)
unfolding check_switch
check_switch_sound (some (bool false)) d {value} is h =
    let (_, h1) = require_ok (all (contains faucet_keys) (keys d)) _ _ h in
    inl (ap (lookup "enabled") (sym (ok-injective h1)) ∙ is)
check_switch_sound (some (bool true)) d {value} is h =
    let (_, h1) = require_ok (all (contains faucet_keys) (keys d)) _ _ h in
    let (_, checked, h2) = bind_ok (check_policy (set_defaults defaults d)) _ h1 in
    subst
      (λ v.
        (lookup "enabled" v ≡ some (bool false))
        ⊎ ((lookup "enabled" v ≡ some (bool true)) × IsFunded v))
      (ok-injective h2) (inr (lookup-enabled d ∙ is, check_policy-IsFunded _ checked))
check_switch_sound _ d is h = cc

found :
    (config : Fields) (faucet : Value) {after : Fields}
    → (do value ← check_faucet faucet; ok (assign "faucet" (obj value) config)) ≡ ok after
    → (value : Fields) × (lookup "faucet" after ≡ some (obj value))
      × ((lookup "enabled" value ≡ some (bool false))
          ⊎ ((lookup "enabled" value ≡ some (bool true)) × IsFunded value))
unfolding check_faucet
found config (obj d) h =
    let (value, at_value, h1) = bind_ok (check_switch (lookup "enabled" d) d) _ h in
    (
      value,
      ap (lookup "faucet") (sym (ok-injective h1)) ∙ lookup-assign "faucet" "faucet" _ config,
      check_switch_sound (lookup "enabled" d) d refl at_value,
    )
found config _ h = cc

-- An accepted configuration has no faucet, a disabled one, or one whose policy is funded.
pub validate_faucet-IsChecked :
    (config : Fields) {after : Fields} → validate_faucet config ≡ ok after → IsChecked after
unfolding validate_faucet
validate_faucet-IsChecked config {after} h = elim (Option-cases (lookup "faucet" config)) [
  | inl missing ↦ inl (ground (arith, missing))
  | inr (faucet, there) ↦ inr (found config faucet (rw (there, validate_faucet) at h))
]
