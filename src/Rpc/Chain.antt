-- ===== src/Rpc/Chain.antt =====
-- `quantity`, `data`, `block`, `identity_check`, `same_checkpoint` and `same_genesis_head` of
-- explorer/public_checks.py.
use usdb_explorer.Prelude.{
  ℕ, String, Bool, true, false, if◌then◌else◌, ◌&&◌, ◌=s◌, ◌==◌, List, [], ◌∷◌, Option, none, some,
}
use usdb_explorer.Python.Value.{Value, Fields, obj, arr, str, bool, lookup, elements, equal}
use usdb_explorer.Python.Exn.{Result, ok, raise, Exn, value_error}
use usdb_explorer.Python.Regex.{
  Regex, class, then_, either, star, text, char, any_hex_digit, repeat, full_match,
}
use usdb_explorer.Python.Text.{lower, decimal}
use usdb_explorer.Rpc.Calls.{Io, ◌>>=◌, ◌>>◌, pure, lift, check, for_each}
use usdb_explorer.Rpc.Failure.{hex_int}
use usdb_explorer.Rpc.Read.{Client}

abbrev leading_re : Regex
leading_re = class ((b'1', b'9') ∷ (b'a', b'f') ∷ (b'A', b'F') ∷ [])

abbrev pub quantity_re : Regex
quantity_re = then_ (text "0x") (either (char b'0') (then_ leading_re (star any_hex_digit)))

abbrev pub data_re : Regex
data_re = then_ (text "0x") (star (repeat 2 any_hex_digit))

abbrev pub hash_re : Regex
hash_re = then_ (text "0x") (repeat 64 any_hex_digit)

unfoldable pub quantity : Value → Result ℕ
quantity (str s) =
    if full_match quantity_re s
    then ok (hex_int s)
    else raise (value_error "RPC returned an invalid quantity")
quantity _ = raise (value_error "RPC returned an invalid quantity")

unfoldable pub data_of : Value → Result String
data_of (str s) =
    if full_match data_re s then ok s else raise (value_error "RPC returned invalid hex data")
data_of _ = raise (value_error "RPC returned invalid hex data")

-- What `block` makes sure of, and the dict itself.
pub record Block : Type 0 where
  pub fields : Fields
  pub hash : String
  pub number_text : Value
  pub number : ℕ
  pub transactions : List Value

-- `HASH.fullmatch(str(value.get("hash", "")))`, which no other value's text matches.
abbrev hash_of : Fields → Option String
hash_of reply = elim (lookup "hash" reply) [
  | some (str s) ↦ if full_match hash_re s then some s else none
  | _ ↦ none
]

abbrev list_of : String → Fields → Option (List Value)
list_of key reply = elim (lookup key reply) [ some (arr items) ↦ some (elements items) | _ ↦ none ]

abbrev number_of : Fields → Value
number_of reply = elim (lookup "number" reply) [ none ↦ Value.null | some v ↦ v ]

abbrev no_block : Exn
no_block = value_error "RPC block is unavailable or malformed"

unfoldable pub read_block : Value → Result Block
read_block (obj reply) = elim (hash_of reply) [
  | none ↦ raise no_block
  | some hash ↦ elim (list_of "transactions" reply) [
    | none ↦ raise no_block
    | some transactions ↦ elim (quantity (number_of reply)) [
      | raise e ↦ raise e
      | ok number ↦ ok (record {
        fields = reply;
        hash = hash;
        number_text = number_of reply;
        number = number;
        transactions = transactions;
      })
    ]
  ]
]
read_block _ = raise no_block

-- The frozen identity of the network, as the configuration has checked it.
pub record NetworkIdentity : Type 0 where
  pub chain_id : ℕ
  pub network_id : ℕ
  pub genesis_block_hash : String

abbrev is_latest : Value → Bool
is_latest tag = equal tag (str "latest")

abbrev wrong_network : String
wrong_network = "upstream network identity differs from the frozen network"

-- `isinstance(genesis, dict)` and its hash in small letters is that of the identity. The text of
-- what is no hash differs from it.
abbrev is_genesis : Value → String → Bool
is_genesis (obj reply) hash = elim (lookup "hash" reply) [
  | some (str s) ↦ lower s =s lower hash
  | _ ↦ false
]
is_genesis _ hash = false

abbrev is_bool_false : Value → Bool
is_bool_false (bool false) = true
is_bool_false _ = false

module _ {W : Type 0} where
  -- `tag != "latest" and number != quantity(tag)`
  unfoldable pub check_height : Value → ℕ → Io W (Unit {0})
  check_height tag number = if is_latest tag then pure tt else do
    height ← lift (quantity tag)
    check (number == height) "RPC returned a different block height"

  unfoldable pub block : Client W → Value → Io W Block
  block rpc tag = do
    reply ← rpc "eth_getBlockByNumber" (tag ∷ bool false ∷ [])
    b ← lift (read_block reply)
    check_height tag b.number
    pure b

  unfoldable pub identity_check : Client W → NetworkIdentity → Io W (Unit {0})
  identity_check rpc identity = do
    genesis ← rpc "eth_getBlockByNumber" (str "0x0" ∷ bool false ∷ [])
    chain ← rpc "eth_chainId" []
    chain_id ← lift (quantity chain)
    check (chain_id == identity.chain_id) wrong_network
    version ← rpc "net_version" []
    check (equal version (str (decimal identity.network_id))) wrong_network
    check (is_genesis genesis identity.genesis_block_hash) wrong_network
    syncing ← rpc "eth_syncing" []
    check (is_bool_false syncing) "upstream is still syncing"

  unfoldable pub same_checkpoint : Block → Client W → Io W (Unit {0})
  same_checkpoint checkpoint rpc = do
    b ← block rpc checkpoint.number_text
    check (lower b.hash =s lower checkpoint.hash)
        "upstream canonical checkpoint changed or differs between endpoints"

  abbrev pub at_genesis : Block → Client W → Io W (Unit {0})
  at_genesis head client = do
    current ← block client (str "latest")
    check ((current.number == 0) && (lower current.hash =s lower head.hash))
        "upstream advanced or endpoints disagree during genesis checks"

  unfoldable pub same_genesis_head : List (Client W) → Block → Io W (Unit {0})
  same_genesis_head clients head = for_each (at_genesis head) clients
