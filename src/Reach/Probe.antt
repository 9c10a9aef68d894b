-- ===== src/Reach/Probe.antt =====
-- `probe_ingress` of explorer/ingress_checks.py: its three operations in a row. The requests and the
-- canonical comparison are arguments, by what they come to.
use usdb_explorer.Prelude.{Bool, true, false, if◌then◌else◌, Option, none, some}
use usdb_explorer.Python.Value.{Value, obj, arr, nat, equal}
use usdb_explorer.Python.Exn.{Result, ok, raise, value_error, ◌>>=◌, require, get, subscript}
use usdb_explorer.Rpc.Chain.{quantity}
use usdb_explorer.Reach.Report.{Failure, Probe, is_caught, error_document}

-- `rpc()`: the chain that the public RPC names is the frozen one.
unfoldable pub check_chain : Value → Result Value → Result (Unit {0})
check_chain identity reply = do
  chain ← quantity (← reply)
  frozen ← subscript identity "chain_id"
  require (equal (nat chain) frozen) "public RPC chain ID differs from the frozen network"

abbrev is_list : Value → Bool
is_list (arr items) = true
is_list _ = false

-- `api()`: the list of blocks is one.
unfoldable pub check_page : Result Value → Result (Unit {0})
check_page (raise e) = raise e
check_page (ok (obj page)) = do
  items ← get (obj page) "items"
  require (is_list items) "explorer block list API returned an invalid response"
check_page (ok _) = raise (value_error "explorer block list API returned an invalid response")

abbrev pub start : Probe
start = record { has_failed = false; rpc_passed = false; api_passed = false; error = none }

-- `result.setdefault("error", failure)`
abbrev pub first_error : Option Failure → Failure → Option Failure
first_error none failure = some failure
first_error (some e) failure = some e

-- One operation, and what its success notes.
unfoldable pub note : Result (Unit {0}) → (Probe → Probe) → Probe → Result Probe
note (ok u) mark p = ok (mark p)
note (raise e) mark p =
    if is_caught e
    then ok (record p { has_failed = true; error = first_error p.error (error_document e) })
    else raise e

-- The canonical comparison runs only behind the other two.
unfoldable pub probe_ingress :
    Result (Unit {0}) → Result (Unit {0}) → Result (Unit {0}) → Result Probe
probe_ingress rpc api canonical = do
  asked ← note rpc (λ p. record p { rpc_passed = true }) start
  listed ← note api (λ p. record p { api_passed = true }) asked
  if listed.has_failed then ok listed else note canonical (λ p. p) listed
