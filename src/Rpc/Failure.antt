-- ===== src/Rpc/Failure.antt =====
-- `rpc_operation` and `rpc_failure` of explorer/public_checks.py. The advice for the operator is
-- cut behind its first clause.
use Prim.Native.Char.{code}
use usdb_explorer.Prelude.{
  ℕ, ◌+◌, ◌-◌, ◌*◌, String, ◌<>◌, Bool, false, if◌then◌else◌, ◌&&◌, ◌||◌, ◌=s◌, leb, List, [], ◌∷◌,
  Option, none, some, contains, any,
}
use usdb_explorer.Prelude.Int.{ℤ, pos, negsuc, eqb_ℤ}
use usdb_explorer.Python.Value.{Value, str, equal}
use usdb_explorer.Python.Exn.{Exn, rpc_failure}
use usdb_explorer.Python.Regex.{Regex, then_, text, any_hex_digit, optional, repeat, full_match}
use usdb_explorer.Python.Text.{lower, starts_with, occurs, decimal}

abbrev pub read_methods : List String
read_methods =
    "eth_chainId" ∷ "net_version" ∷ "eth_syncing" ∷ "eth_getBlockByNumber" ∷ "eth_getBalance"
    ∷ "eth_getCode" ∷ "eth_call" ∷ "eth_getTransactionReceipt" ∷ "debug_traceTransaction"
    ∷ "debug_traceBlockByNumber" ∷ []

abbrev pub trace_methods : List String
trace_methods = "debug_traceTransaction" ∷ "debug_traceBlockByNumber" ∷ []

abbrev pub state_methods : List String
state_methods = "eth_getBalance" ∷ "eth_getCode" ∷ "eth_call" ∷ []

abbrev pub missing_transaction : String
missing_transaction = "0x0000000000000000000000000000000000000000000000000000000000000000"

-- The digit of a hexadecimal character.
abbrev hex_value : ℕ → ℕ
hex_value c = if leb b'a' c then c - b'a' + 10 else if leb b'A' c then c - b'A' + 10 else c - b'0'

-- The number that hexadecimal digits spell behind `n`.
unfoldable pub hex_number : ℕ → String → ℕ
hex_number n String.[] = n
hex_number n (String.◌∷◌ c s) = hex_number (n * 16 + hex_value (code c)) s

-- `int(s, 16)` of a text behind its `0x`.
unfoldable pub hex_int : String → ℕ
hex_int (String.◌∷◌ a (String.◌∷◌ b s)) = hex_number 0 s
hex_int _ = 0

abbrev tag_re : Regex
tag_re = then_ (text "0x") (then_ any_hex_digit (repeat 15 (optional any_hex_digit)))

abbrev first : List Value → Option Value
first [] = none
first (v ∷ params) = some v

abbrev second : List Value → Option Value
second [] = none
second (v ∷ params) = first params

-- The parameter that names the block, for the methods that have one.
abbrev pub block_parameter : String → List Value → Option Value
block_parameter method params =
    if contains state_methods method
    then second params
    else if (method =s "eth_getBlockByNumber") || (method =s "debug_traceBlockByNumber")
    then first params
    else none

unfoldable pub rpc_operation : String → List Value → String
rpc_operation method params = elim (block_parameter method params) [
  | some (str tag) ↦
      if full_match tag_re tag
      then "RPC " <> method <> " at block " <> decimal (hex_int tag) <> " (" <> tag <> ")"
      else "RPC " <> method
  | _ ↦ "RPC " <> method
]

-- `params and params[0] == s`
abbrev pub first_is : List Value → String → Bool
first_is [] s = false
first_is (v ∷ params) s = equal v (str s)

abbrev pub mentions : List String → String → Bool
mentions markers text = any (λ marker. occurs marker text) markers

abbrev pub denied : List String
denied =
    "unauthorized" ∷ "authentication required" ∷ "access denied" ∷ "forbidden" ∷ "invalid api key"
    ∷ []

abbrev pub pruned : List String
pruned =
    "missing trie node" ∷ "historical state unavailable" ∷ "historical state is unavailable"
    ∷ "state is not available" ∷ "state not available" ∷ "no state available"
    ∷ "state has been pruned" ∷ []

abbrev pub timed_out : List String
timed_out = "execution timeout" ∷ "timed out" ∷ "deadline exceeded" ∷ "request timeout" ∷ []

abbrev pub code_is : Option ℤ → ℤ → Bool
code_is none n = false
code_is (some m) n = eqb_ℤ m n

-- The probes of an empty chain, which have nothing to trace: -32000 is the code.
abbrev pub is_probe : String → List Value → String → Bool
is_probe method params text =
    ((method =s "debug_traceBlockByNumber")
      && first_is params "0x0"
      && (text =s "genesis is not traceable"))
    || ((method =s "debug_traceTransaction")
        && first_is params missing_transaction
        && ((text =s "genesis is not traceable") || (text =s "transaction not found")))

-- The category and the advice of an error that is not that of a probe.
unfoldable pub classify_other : String → Option ℤ → String → String × String
classify_other method code text =
    if code_is code (pos 3) || starts_with text "execution reverted"
    then ("RPC_EXECUTION_ERROR", "EVM execution reverted")
    else if mentions denied text
    then ("RPC_AUTH", "access was denied")
    else if code_is code (negsuc 32600)
    then (if contains trace_methods method
        then ("TRACING_UNAVAILABLE", "tracing method is unavailable or filtered")
        else ("RPC_METHOD_UNAVAILABLE", "required method is unavailable or filtered"))
    else if (contains state_methods method || contains trace_methods method) && mentions pruned text
    then ("HISTORICAL_STATE_UNAVAILABLE", "required historical state is unavailable")
    else if mentions timed_out text
    then (if contains trace_methods method
        then ("TRACING_TIMEOUT", "request execution timed out")
        else ("RPC_TIMEOUT", "request execution timed out"))
    else if contains trace_methods method && occurs "tracer not found" text
    then ("TRACER_UNSUPPORTED", "callTracer is unavailable")
    else ("RPC_ERROR", "upstream rejected the request")

unfoldable pub classify_error : String → List Value → Option ℤ → String → String × String
classify_error method params code text =
    if code_is code (negsuc 31999) && is_probe method params text
    then ("TRACE_SAMPLE_UNAVAILABLE", "tracing method responded")
    else classify_other method code text

abbrev integer : ℤ → String
integer (pos n) = decimal n
integer (negsuc n) = "-" <> decimal (n + 1)

abbrev status_of : Option ℤ → String
status_of none = ""
status_of (some code) = " (JSON-RPC code " <> integer code <> ")"

unfoldable pub failure_of : String → List Value → Option ℤ → String → Exn
failure_of method params code message =
    let (category, advice) = classify_error method params code (lower message) in
    rpc_failure category (rpc_operation method params <> status_of code <> ": " <> advice)
