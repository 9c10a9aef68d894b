-- ===== src/Config/Upstream.antt =====
-- The `rpc` settings of `load_config` in explorer/public_config.py.
use usdb_explorer.Prelude.{
  String, Bool, true, false, if◌then◌else◌, not, ◌&&◌, ◌||◌, ◌=s◌, List, [], ◌∷◌, Option, none,
  some,
}
use usdb_explorer.Prelude.Int.{pos}
use usdb_explorer.Python.Value.{Value, Fields, null, int, str, obj, lookup, has}
use usdb_explorer.Python.Exn.{
  Result, ok, raise, value_error, type_error, ◌>>=◌, ◌>>◌, require, subscript,
}
use usdb_explorer.Python.Regex.{full_match}
use usdb_explorer.Faucet.{set_default}
use usdb_explorer.Rpc.Chain.{hash_re}
use usdb_explorer.Config.{Url, fields, endpoint}

abbrev rpc_keys : List String
rpc_keys =
    "mode" ∷ "read_url" ∷ "trace_url" ∷ "broadcast_url" ∷ "reference_url" ∷ "historical_block"
    ∷ "transaction" ∷ "indexer_url" ∷ []

abbrev pub is_local_node : Value → Bool
is_local_node (str s) = s =s "local-node"
is_local_node _ = false

-- `rpc["mode"] not in {"external", "local-node"}`, which refuses what has no hash.
unfoldable pub check_mode : Value → Result Bool
check_mode (str s) =
    if s =s "local-node"
    then ok true
    else if s =s "external"
    then ok false
    else raise (value_error "rpc.mode must be external or local-node")
check_mode (Value.arr items) = raise type_error
check_mode (obj d) = raise type_error
check_mode _ = raise (value_error "rpc.mode must be external or local-node")

-- The defaults of a node on this host.
unfoldable pub local_defaults : Bool → Fields → Fields
local_defaults false rpc = rpc
local_defaults true rpc =
    set_default "indexer_url" (str "http://127.0.0.1:28020")
      (set_default "read_url" (str "http://127.0.0.1:8545") rpc)

-- The other routes are the one for reads, unless they are named.
unfoldable pub route_defaults : Value → Fields → Fields
route_defaults read_url rpc =
    set_default "broadcast_url" read_url (set_default "trace_url" read_url rpc)

-- The settings with their defaults, and whether the node is local.
unfoldable pub with_defaults : Value → Result (Bool × Fields)
with_defaults value = do
  rpc ← fields value [] rpc_keys
  mode ← subscript (obj (set_default "mode" (str "external") rpc)) "mode"
  local ← check_mode mode
  let filled = local_defaults local (set_default "mode" (str "external") rpc)
  require (has "read_url" filled) "rpc.read_url is required for external RPC mode"
  read_url ← subscript (obj filled) "read_url"
  ok (local, route_defaults read_url filled)

-- An HTTP endpoint of the loopback interface.
unfoldable pub is_loopback : Url → Bool
is_loopback url = (url.scheme =s "http") && (elim url.hostname [
  | none ↦ false
  | some host ↦ (host =s "127.0.0.1") || (host =s "localhost") || (host =s "::1")
])

abbrev pub is_height : Option Value → Bool
is_height none = true
is_height (some (int (pos n))) = true
is_height (some _) = false

abbrev pub is_transaction : Option Value → Bool
is_transaction none = true
is_transaction (some (str s)) = full_match hash_re s
is_transaction (some _) = false

abbrev pub route_keys : List String
route_keys = "read_url" ∷ "trace_url" ∷ "broadcast_url" ∷ "reference_url" ∷ []

module _ (urlsplit : String → Result Url) where
  -- One of the URLs, which is local for a local node.
  unfoldable pub check_url : Bool → Value → Result (Unit {0})
  check_url local value = do
    url ← endpoint urlsplit value false
    require (not local || is_loopback url) "local-node endpoint must use an HTTP loopback endpoint"

  unfoldable pub check_urls : Bool → Fields → List String → Result (Unit {0})
  check_urls local rpc [] = ok tt
  check_urls local rpc (key ∷ more) = elim (lookup key rpc) [
    | none ↦ check_urls local rpc more
    | some value ↦ do
      check_url (local && not (key =s "reference_url")) value
      check_urls local rpc more
  ]

  unfoldable pub check_indexer : Bool → Fields → Result (Unit {0})
  check_indexer local rpc = elim (lookup "indexer_url" rpc) [
    | none ↦ ok tt
    | some null ↦ ok tt
    | some value ↦ check_url local value
  ]

  unfoldable pub load_rpc : Value → Result (Bool × Fields)
  load_rpc value = do
    (local, rpc) ← with_defaults value
    check_urls local rpc route_keys
    check_indexer local rpc
    require (is_height (lookup "historical_block" rpc))
        "historical_block must be a nonnegative integer"
    require (is_transaction (lookup "transaction" rpc))
        "transaction must be an existing mined transaction hash"
    ok (local, rpc)
