-- ===== src/Config/Settings.antt =====
-- Settings of explorer/public_config.py with their defaults: what stands under a key behind
-- `setdefault`, and what the `ingress` of `load_config` has under its keys.
use usdb_explorer.Prelude.{
  ℕ, String, ◌≡◌, refl, sym, ap, ◌∙◌, if◌then◌else◌, ◌=s◌, Option, none, some, List, Bool-cases,
  Option-cases, eq_iff, arith, inl, inr, all, not, ◌||◌, contains,
}
use usdb_explorer.Prelude.Int.{pos}
use usdb_explorer.Python.Value.{
  Value, Fields, obj, int, nat, lookup, has, assign, keys, lookup-assign,
}
use usdb_explorer.Python.Exn.{ok, bind_ok, subscript}
use usdb_explorer.Python.Exn.Loops.{ok-injective, unless_ok}
use usdb_explorer.Faucet.{set_default}
use usdb_explorer.Config.{fields}
use usdb_explorer.Config.Ingress.{port_number, port_at}

abbrev or_default : Value → Option Value → Value
or_default default none = default
or_default default (some v) = v

-- What is configured under a key, or else the default.
abbrev pub chosen : String → Value → Fields → Value
chosen key default d = or_default default (lookup key d)

pub fields-obj :
    (value : Value) (required optional : List String) {d : Fields}
    → fields value required optional ≡ ok d
    → value ≡ obj d
unfolding fields
fields-obj (obj d) required optional h =
    ap obj
      (unless_ok
        (not (all (λ key. contains required key || contains optional key) (keys d))
          || not (all (λ key. has key d) required))
        _ h).1
fields-obj _ required optional h = cc

pub subscript-lookup :
    (d : Fields) (key : String) {v : Value} → subscript (obj d) key ≡ ok v → lookup key d ≡ some v
unfolding subscript
subscript-lookup d key h = elim (Option-cases (lookup key d)) [
  | inl missing ↦ cc (rw (missing, subscript) at h)
  | inr (w, there) ↦ there ∙ ap some (ok-injective (rw (there, subscript) at h))
]

module _ (key : String) (default : Value) (d : Fields) (other : String) where
  put : lookup key d ≡ none → set_default key default d ≡ assign key default d
  unfolding set_default
  put e = ground (arith, e)

  left : (w : Value) → lookup key d ≡ some w → set_default key default d ≡ d
  unfolding set_default
  left w e = ground (arith, e)

  -- `setdefault` puts what is chosen under its key, and keeps the others.
  pub lookup-set_default :
      lookup other (set_default key default d)
      ≡ (if key =s other then some (chosen key default d) else lookup other d)
  lookup-set_default = elim (Option-cases (lookup key d)) [
    | inl missing ↦ rw (put missing, missing) (lookup-assign key other default d)
    | inr (w, there) ↦ rw (left w there, there) (kept w there)
  ]
    where
      kept :
          (w : Value)
          → lookup key d ≡ some w
          → lookup other d ≡ (if key =s other then some w else lookup other d)
      kept w there = elim (Bool-cases (key =s other)) [
        | inl same ↦ rw same (ap (λ k. lookup k d) (sym ((eq_iff key other).0 same)) ∙ there)
        | inr differ ↦ rw differ refl
      ]

pub port_number-nat : (v : Value) {n : ℕ} → port_number v ≡ ok n → v ≡ nat n
unfolding port_number
port_number-nat (int (pos m)) {n} h = let same : m ≡ n = ground arith in ap nat same
port_number-nat _ h = cc

pub port_at-lookup :
    (key : String) (d : Fields) {n : ℕ} → port_at key d ≡ ok n → lookup key d ≡ some (nat n)
unfolding port_at
port_at-lookup key d h =
    let (v, at_v, h1) = bind_ok (subscript (obj d) key) _ h in
    subscript-lookup d key at_v ∙ ap some (port_number-nat v h1)
