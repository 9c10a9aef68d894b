-- ===== src/Rpc/Preflight.antt =====
-- `preflight` of explorer/public_checks.py.
use usdb_explorer.Prelude.{
  ℕ, zero, suc, ◌-◌, ◌/◌, ◌%◌, String, ◌<>◌, Bool, true, false, if◌then◌else◌, not, ◌==◌, leb, ltb,
  List, [], ◌∷◌, Option, none, some,
}
use usdb_explorer.Python.Value.{Value, field, end, obj, str, null, lookup}
use usdb_explorer.Python.Exn.{Result, ok, raise, value_error, rpc_failure}
use usdb_explorer.Python.Regex.{Regex, then_, text, repeat, any_hex_digit, full_match}
use usdb_explorer.Python.Text.{digit}
use usdb_explorer.Rpc.Calls.{Io, ◌>>=◌, ◌>>◌, pure, lift, attempt, for_each}
use usdb_explorer.Rpc.Failure.{rpc_operation}
use usdb_explorer.Rpc.Read.{Client, named_rpc}
use usdb_explorer.Rpc.Chain.{
  quantity, data_of, hash_re, Block, block, NetworkIdentity, identity_check, same_checkpoint,
  same_genesis_head,
}
use usdb_explorer.Rpc.Trace.{pending_trace_sample, sample_block, trace_sample}

abbrev hex_digit_of : ℕ → String
hex_digit_of n =
    if ltb n 10
    then digit n
    else if n == 10
    then "a"
    else if n == 11
    then "b"
    else if n == 12
    then "c"
    else if n == 13
    then "d"
    else if n == 14
    then "e"
    else "f"

-- A number of at most `fuel` hexadecimal digits.
unfoldable pub hex_digits : ℕ → ℕ → String
hex_digits zero n = ""
hex_digits (suc fuel) n =
    let before = hex_digits fuel (n / 16) in
    if ltb n 16 then hex_digit_of n else before <> hex_digit_of (n % 16)

-- `hex(n)`; `n` has at most `n + 1` digits.
unfoldable pub hex : ℕ → String
hex n = "0x" <> hex_digits (suc n) n

-- The `rpc` settings, as `load_config` has checked them.
pub record Settings : Type 0 where
  pub read_url : String
  pub trace_url : String
  pub broadcast_url : String
  pub reference_url : Option String
  pub historical_block : Option ℕ
  pub transaction : Option String

abbrev zero_address : String
zero_address = "0x0000000000000000000000000000000000000000"

abbrev address_re : Regex
address_re = then_ (text "0x") (repeat 40 any_hex_digit)

unfoldable pub sample_address : Block → Result String
sample_address head = elim (lookup "miner" head.fields) [
  | none ↦ ok zero_address
  | some (str s) ↦
      if full_match address_re s then ok s else raise (value_error "invalid sample address")
  | some _ ↦ raise (value_error "invalid sample address")
]

pub data Status : Type 0 where
  passed ready_no_transaction_sample : Status

pub record Report : Type 0 where
  pub status : Status
  pub checkpoint : ℕ × String
  pub historical_sample : ℕ × String
  pub transaction : Value
  pub reference_configured : Bool
  pub genesis_only : Bool

-- A `ValueError` of the identity check names the route; a failed call does so already.
abbrev name_error : String → Result (Unit {0}) → Result (Unit {0})
name_error name (raise (value_error message)) = raise (value_error (name <> ": " <> message))
name_error name r = r

-- A result that `validate` refuses is no result of the method.
abbrev checked_result : {A : Type 0} → String → Result A → Result A
checked_result operation (raise (value_error message)) =
    raise (rpc_failure "RPC_INVALID_RESPONSE" ("read_url: " <> operation <> ": invalid result"))
checked_result operation r = r

-- The first transaction of a block.
abbrev pub first_of : List Value → Option Value
first_of [] = none
first_of (v ∷ rest) = some v

abbrev no_reference : Option String → Bool
no_reference none = true
no_reference (some url) = false

-- The routes, by their names, in the order in which they are checked.
pub record Routes (W : Type 0) : Type 0 where
  pub read : Client W
  pub trace : Client W
  pub broadcast : Client W
  pub reference : Option (Client W)

abbrev pub historical_height : Settings → Block → ℕ
historical_height settings head = elim settings.historical_block [
  | none ↦ head.number - 256
  | some height ↦ height
]

abbrev empty_call : Value
empty_call = obj (field "to" (str zero_address) (field "data" (str "0x") end))

unfoldable pub report_of : Status → Settings → Block → Block → Value → Report
report_of status settings head historical transaction = record {
  status = status;
  checkpoint = (head.number, head.hash);
  historical_sample = (historical.number, historical.hash);
  transaction = transaction;
  reference_configured = not (no_reference settings.reference_url);
  genesis_only = elim status [ passed ↦ false | ready_no_transaction_sample ↦ head.number == 0 ];
}

abbrev pub as_hash : Value → Result String
as_hash (str s) =
    if full_match hash_re s then ok s else raise (value_error "invalid tracing sample")
as_hash _ = raise (value_error "invalid tracing sample")

module _ {W : Type 0} where
  abbrev pub clients : Routes W → List (Client W)
  clients routes =
      routes.read
      ∷ routes.trace
      ∷ routes.broadcast
      ∷ (elim routes.reference [ none ↦ [] | some client ↦ client ∷ [] ])

  abbrev pub named_clients : Routes W → List (String × Client W)
  named_clients routes =
      ("read_url", routes.read)
      ∷ ("trace_url", routes.trace)
      ∷ ("broadcast_url", routes.broadcast)
      ∷ (elim routes.reference [ none ↦ [] | some client ↦ ("reference_url", client) ∷ [] ])

  abbrev pub reference_of : (String → Client W) → Option String → Option (Client W)
  reference_of factory none = none
  reference_of factory (some url) = some (named_rpc (factory url) "reference_url")

  abbrev pub connect : (String → Client W) → Settings → Routes W
  connect factory settings = record {
    read = named_rpc (factory settings.read_url) "read_url";
    trace = named_rpc (factory settings.trace_url) "trace_url";
    broadcast = named_rpc (factory settings.broadcast_url) "broadcast_url";
    reference = reference_of factory settings.reference_url;
  }

  unfoldable pub identify : NetworkIdentity → String × Client W → Io W (Unit {0})
  identify identity route = do
    answer ← attempt (identity_check route.1 identity)
    lift (name_error route.0 answer)

  abbrev pub pinning : Routes W → Client W
  pinning routes = elim routes.reference [ none ↦ routes.read | some client ↦ client ]

  -- The head of the reference, which every route has to know.
  unfoldable pub pin : Routes W → Io W Block
  pin routes = do
    head ← block (pinning routes) (str "latest")
    for_each (same_checkpoint head) (clients routes)
    pure head

  abbrev state_call : {A : Type 0} → Client W → String → List Value → (Value → Result A) → Io W A
  state_call read method params validate = do
    result ← read method params
    lift (checked_result (rpc_operation method params) (validate result))

  -- The three reads of the historical state.
  unfoldable pub read_state : Client W → String → ℕ → Io W (Unit {0})
  read_state read address height = do
    state_call read "eth_getBalance" (str address ∷ str (hex height) ∷ []) quantity
    state_call read "eth_getCode" (str address ∷ str (hex height) ∷ []) data_of
    state_call read "eth_call" (empty_call ∷ str (hex height) ∷ []) data_of
    pure tt

  unfoldable pub historical_sample : Settings → Client W → Block → Io W Block
  historical_sample settings read head = do
    let height = historical_height settings head
    if leb height head.number
        then pure tt
        else lift (raise (rpc_failure "SAMPLE_ABOVE_HEAD" "configured rpc.historical_block"))
    historical ← block read (str (hex height))
    address ← lift (sample_address head)
    read_state read address height
    pure historical

  -- The transaction that was found, or what the block below gives, if there is one.
  unfoldable pub older : (ℕ → Io W Value) → ℕ → Option Value → Io W Value
  older below number (some v) = pure v
  older below zero none = pure null
  older below (suc n) none = below n

  -- The first transaction of the newest block that has one, among `window` blocks from `number` on.
  unfoldable pub find_transaction : ℕ → ℕ → Client W → Io W Value
  find_transaction zero number read = pure null
  find_transaction (suc window) number read = do
    sample ← block read (str (hex number))
    older (λ below. find_transaction window below read) number (first_of sample.transactions)

  unfoldable pub choose_transaction : Settings → Client W → Block → Io W Value
  choose_transaction settings read head = elim settings.transaction [
    | some transaction ↦ pure (str transaction)
    | none ↦ find_transaction 32 head.number read
  ]

  -- Without a transaction: the probes, and the checkpoints again.
  unfoldable pub without_sample : Routes W → Block → Block → Io W (Unit {0})
  without_sample routes head historical = do
    pending_trace_sample routes.trace head
    for_each (same_checkpoint head) (clients routes)
    same_checkpoint historical routes.read
    if head.number == 0 then same_genesis_head (clients routes) head else pure tt

  -- With one: its receipt, its block and its traces, and the checkpoints again.
  unfoldable pub with_sample : Routes W → Block → Block → Value → Io W (Unit {0})
  with_sample routes head historical v = do
    transaction ← lift (as_hash v)
    sample ← sample_block routes.read head transaction
    trace_sample routes.trace sample transaction
    for_each (same_checkpoint head) (clients routes)
    same_checkpoint historical routes.read
    same_checkpoint sample routes.read
    same_checkpoint sample routes.trace

  -- The last part of the check, by the sample.
  unfoldable pub conclude : Settings → Routes W → Block → Block → Value → Io W Report
  conclude settings routes head historical null = do
    without_sample routes head historical
    pure (report_of ready_no_transaction_sample settings head historical null)
  conclude settings routes head historical v = do
    with_sample routes head historical v
    pure (report_of passed settings head historical v)

  unfoldable pub preflight : (String → Client W) → Settings → NetworkIdentity → Io W Report
  preflight factory settings identity = do
    let routes = connect factory settings
    for_each (identify identity) (named_clients routes)
    head ← pin routes
    historical ← historical_sample settings routes.read head
    transaction ← choose_transaction settings routes.read head
    conclude settings routes head historical transaction
