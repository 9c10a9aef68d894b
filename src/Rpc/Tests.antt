-- ===== src/Rpc/Tests.antt =====
-- Runs of the acceptance on a chain of one block, and the theorems of `Rpc` at it.
use usdb_explorer.Prelude.{
  ◌≡◌, refl, String, true, false, if◌then◌else◌, ◌=s◌, List, [], ◌∷◌, none, some, ℕ, suc, contains,
  All,
}
use usdb_explorer.Prelude.Int.{negsuc}
use usdb_explorer.Python.Value.{
  Value, Fields, field, end, obj, arr, nil, cons, str, bool, nat, null, int,
}
use usdb_explorer.Rpc.Calls.{Io, Outcome, done, failed}
use usdb_explorer.Rpc.Failure.{classify_error, missing_transaction, read_methods}
use usdb_explorer.Rpc.Errors.{IsProbe, classify_error-IsProbe}
use usdb_explorer.Rpc.Read.{Client, read_rpc, read_reply, payload}
use usdb_explorer.Rpc.Chain.{NetworkIdentity, Block}
use usdb_explorer.Rpc.Preflight.{
  Settings, Report, Status, preflight, connect, passed, ready_no_transaction_sample,
}
use usdb_explorer.Rpc.Guard.{Keeps, IsReadOnly}
use usdb_explorer.Rpc.ReadOnly.{preflight-Keeps}
use usdb_explorer.Rpc.Report.{IsReport, preflight-IsReport}

classify_error-IsProbe_example :
    IsProbe "debug_traceBlockByNumber" (str "0x0" ∷ []) (some (negsuc 31999))
unfolding classify_error usdb_explorer.Python.Value.equal
classify_error-IsProbe_example =
    classify_error-IsProbe "debug_traceBlockByNumber" (str "0x0" ∷ []) (some (negsuc 31999))
      "genesis is not traceable" refl

abbrev reply_of : Value → Fields
reply_of v = field "jsonrpc" (str "2.0") (field "id" (nat 1) (field "result" v end))

abbrev hash : String
hash = "0x1111111111111111111111111111111111111111111111111111111111111111"

abbrev genesis : Value
genesis =
    obj (field "hash" (str hash) (field "number" (str "0x0") (field "transactions" (arr nil) end)))

abbrev error_reply : String → Value
error_reply message = obj (
    field "jsonrpc" (str "2.0") (
      field "id" (nat 1) (
        field "error" (obj (field "code" (int (negsuc 31999)) (field "message" (str message) end)))
          end)))

abbrev pub answer : String → Value
answer method =
    if method =s "eth_getBlockByNumber"
    then obj (reply_of genesis)
    else if method =s "eth_chainId"
    then obj (reply_of (str "0x1"))
    else if method =s "net_version"
    then obj (reply_of (str "7"))
    else if method =s "eth_syncing"
    then obj (reply_of (bool false))
    else if method =s "debug_traceTransaction"
    then error_reply "transaction not found"
    else if method =s "debug_traceBlockByNumber"
    then error_reply "genesis is not traceable"
    else obj (reply_of (str "0x"))

-- `eth_getBalance` answers a quantity, `eth_getCode` and `eth_call` data. The world counts requests.
abbrev pub reply_to : Value → Value
reply_to (obj (field _ _ (field _ _ (field _ (str method) rest)))) =
    if method =s "eth_getBalance" then obj (reply_of (str "0x0")) else answer method
reply_to _ = null

abbrev fetch : String → Value → Io ℕ Value
fetch url request n = done (reply_to request) (suc n)

abbrev pub settings : Settings
settings = record {
  read_url = "http://a";
  trace_url = "http://a";
  broadcast_url = "http://b";
  reference_url = none;
  historical_block = none;
  transaction = none;
}

abbrev pub identity : NetworkIdentity
identity = record { chain_id = 1; network_id = 7; genesis_block_hash = hash }

abbrev report : Report
report = record {
  status = ready_no_transaction_sample;
  checkpoint = (0, hash);
  historical_sample = (0, hash);
  transaction = null;
  reference_configured = false;
  genesis_only = true;
}

abbrev client : String → Client ℕ
client url = read_rpc (fetch url)

preflight-IsReport_example : IsReport settings (connect client settings) report
unfolding usdb_explorer.Rpc.Calls.◌>>=◌ usdb_explorer.Rpc.Calls.◌>>◌ usdb_explorer.Rpc.Calls.pure
    usdb_explorer.Rpc.Calls.lift usdb_explorer.Rpc.Calls.check usdb_explorer.Rpc.Calls.attempt
    usdb_explorer.Rpc.Calls.for_each usdb_explorer.Rpc.Failure.rpc_operation
    usdb_explorer.Rpc.Failure.hex_number usdb_explorer.Rpc.Failure.hex_int
    usdb_explorer.Rpc.Failure.classify_error usdb_explorer.Rpc.Failure.classify_other
    usdb_explorer.Rpc.Failure.failure_of usdb_explorer.Rpc.Read.error_of
    usdb_explorer.Rpc.Read.first_error usdb_explorer.Rpc.Read.result_of
    usdb_explorer.Rpc.Read.read_reply usdb_explorer.Rpc.Read.read_rpc
    usdb_explorer.Rpc.Read.named_rpc usdb_explorer.Rpc.Chain.quantity
    usdb_explorer.Rpc.Chain.data_of usdb_explorer.Rpc.Chain.read_block
    usdb_explorer.Rpc.Chain.check_height usdb_explorer.Rpc.Chain.block
    usdb_explorer.Rpc.Chain.identity_check usdb_explorer.Rpc.Chain.same_checkpoint
    usdb_explorer.Rpc.Chain.same_genesis_head usdb_explorer.Rpc.Trace.pending_trace_sample
    usdb_explorer.Rpc.Trace.sample_block usdb_explorer.Rpc.Trace.trace_sample
    usdb_explorer.Rpc.Preflight.hex_digits usdb_explorer.Rpc.Preflight.hex
    usdb_explorer.Rpc.Preflight.sample_address usdb_explorer.Rpc.Preflight.identify
    usdb_explorer.Rpc.Preflight.pin usdb_explorer.Rpc.Preflight.read_state
    usdb_explorer.Rpc.Preflight.historical_sample usdb_explorer.Rpc.Preflight.older
    usdb_explorer.Rpc.Preflight.find_transaction usdb_explorer.Rpc.Preflight.choose_transaction
    usdb_explorer.Rpc.Preflight.report_of usdb_explorer.Rpc.Preflight.without_sample
    usdb_explorer.Rpc.Preflight.with_sample usdb_explorer.Rpc.Preflight.conclude
    usdb_explorer.Rpc.Preflight.preflight usdb_explorer.Python.Value.lookup
    usdb_explorer.Python.Value.equal usdb_explorer.Python.Value.truthy
    usdb_explorer.Python.Value.elements usdb_explorer.Python.Value.items_of
    usdb_explorer.Python.Value.size usdb_explorer.Python.Text.lower
    usdb_explorer.Python.Text.decimal usdb_explorer.Python.Text.occurs
    usdb_explorer.Python.Regex.full_match
preflight-IsReport_example =
    preflight-IsReport client settings identity 0 {r = report} {w = 30} refl

-- A world that logs the methods of the requests.
abbrev pub method_of : Value → String
method_of (obj (field _ _ (field _ _ (field _ (str method) rest)))) = method
method_of _ = ""

abbrev logged : String → Value → Io (List String) Value
logged url request log = done (reply_to request) (method_of request ∷ log)

abbrev OnlyReads : List String → Type 0
OnlyReads log = All (λ method. contains read_methods method ≡ true) log

logged-IsReadOnly : (url : String) → IsReadOnly OnlyReads (logged url)
logged-IsReadOnly url method params known = record { keeps = λ log reads. (known, reads) }

preflight-Keeps_example :
    Keeps OnlyReads (preflight (λ url. read_rpc (logged url)) settings identity)
preflight-Keeps_example = preflight-Keeps OnlyReads logged settings identity logged-IsReadOnly
