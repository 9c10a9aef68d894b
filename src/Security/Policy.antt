-- ===== src/Security/Policy.antt =====
-- What `security_enforcement` of explorer/public_config.py promises of a network.
use usdb_explorer.Prelude.{
  ◌≡◌, refl, ◌⊎◌, inl, inr, String, true, false, none, some, arith, ap, Bool-cases,
}
use usdb_explorer.Python.Value.{Value, null, str}
use usdb_explorer.Python.Exn.{ok}
use usdb_explorer.Security.{
  matches, testnet_re, mainnet_re, requested_mode, network_mode, security_enforcement,
}

-- What an answer means for a network: the mainnet is strict, and a testnet has what was asked
-- for, or reports only.
abbrev pub IsPolicy : Value → Value → String → Type 0
IsPolicy network requested mode =
    ((matches testnet_re network ≡ true)
      × ((requested ≡ str mode) ⊎ ((requested ≡ null) × (mode ≡ "report-only"))))
    ⊎ ((matches testnet_re network ≡ false)
        × (matches mainnet_re network ≡ true)
        × (mode ≡ "strict"))

without_request :
    (network : Value) {mode : String}
    → network_mode network none ≡ ok mode
    → IsPolicy network null mode
unfolding network_mode
without_request network h = elim (Bool-cases (matches testnet_re network)) [
  | inl is ↦ inl (is, inr (refl, ground arith))
  | inr is_not ↦ inr (is_not, ground arith, ground arith)
]

with_request :
    (network : Value) (s : String) {mode : String}
    → network_mode network (some s) ≡ ok mode
    → IsPolicy network (str s) mode
unfolding network_mode
with_request network s h = elim (Bool-cases (matches testnet_re network)) [
  | inl is ↦ inl (is, inl (ap str (ground arith)))
  | inr is_not ↦ inr (is_not, ground arith, ground arith)
]

-- An accepted policy is strict on the mainnet whatever was asked for, and on a testnet it is what
-- was asked for, or reports only if nothing was.
pub security_enforcement-IsPolicy :
    (network requested : Value) {mode : String}
    → security_enforcement network requested ≡ ok mode
    → IsPolicy network requested mode
unfolding security_enforcement requested_mode
security_enforcement-IsPolicy network null h = without_request network h
security_enforcement-IsPolicy network (str s) h = with_request network s (ground arith)
security_enforcement-IsPolicy network _ h = cc
