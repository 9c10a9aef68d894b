-- ===== src/Faucet/Tests.antt =====
-- Runs of the faucet policy, and its theorems at them.
use usdb_explorer.Prelude.{◌≡◌, refl, String, true, ◌*◌, ◌^◌, ◌≤◌, ◌<◌, length}
use usdb_explorer.Python.Value.{Value, Fields, field, end, obj, str, bool, nat}
use usdb_explorer.Python.Exn.{Result, ok, raise, value_error}
use usdb_explorer.Python.Text.{codes}
use usdb_explorer.Faucet.{amount, fraction, validate_faucet}
use usdb_explorer.Faucet.Amount.{units, amount-units}
use usdb_explorer.Faucet.Policy.{IsChecked, validate_faucet-IsChecked}

amount-units_example :
    (s : String) × (str "1.25" ≡ str s)
    × (125 * 10 ^ 16 ≡ units s 18)
    × (length (codes (fraction s)) ≤ 18)
    × (0 < 125 * 10 ^ 16)
unfolding amount usdb_explorer.Python.Regex.full_match usdb_explorer.Python.Text.partition
    usdb_explorer.Python.Text.decimal_value
amount-units_example = amount-units (str "1.25") 18 {n = 125 * 10 ^ 16} refl

-- No exponent, no sign, no leading zero, and no more digits than a gwei has.
refused :
    (amount (str "1e3") 18 ≡ raise (value_error "faucet amounts must be positive decimal strings"))
    × (amount (str "0.00") 18
        ≡ raise (value_error "faucet amounts must be positive decimal strings"))
    × (amount (str "01") 18 ≡ raise (value_error "faucet amounts must be positive decimal strings"))
    × (amount (str "0.0000000001") 9
        ≡ raise (value_error "faucet amounts must be positive decimal strings"))
unfolding amount usdb_explorer.Python.Regex.full_match usdb_explorer.Python.Text.partition
    usdb_explorer.Python.Text.decimal_value
refused = (refl, refl, refl, refl)

abbrev config : Fields
config =
    field "faucet"
      (obj (
        field "enabled" (bool true)
          (field "claim_amount" (str "1") (field "daily_budget" (str "100") end))))
      end

abbrev policy : Fields
policy = field "enabled" (bool true) (
    field "claim_amount" (str "1") (
      field "daily_budget" (str "100") (
        field "gas_reserve" (str "0.01") (
          field "max_gas_price_gwei" (str "100") (
            field "cooldown_seconds" (nat 86400) (
              field "ip_daily_claims" (nat 10)
                (field "ip_requests_per_minute" (nat 10) (field "confirmations" (nat 3) end))))))))

validate_faucet-IsChecked_example : IsChecked (field "faucet" (obj policy) end)
unfolding validate_faucet usdb_explorer.Python.Value.lookup usdb_explorer.Faucet.check_faucet
    usdb_explorer.Faucet.check_switch usdb_explorer.Python.Value.keys
    usdb_explorer.Faucet.check_policy amount usdb_explorer.Faucet.set_defaults
    usdb_explorer.Faucet.set_default usdb_explorer.Python.Value.assign
    usdb_explorer.Python.Regex.full_match usdb_explorer.Python.Text.partition
    usdb_explorer.Python.Text.decimal_value usdb_explorer.Python.Exn.subscript
    usdb_explorer.Faucet.check_limits
validate_faucet-IsChecked_example =
    validate_faucet-IsChecked config {after = field "faucet" (obj policy) end} refl
