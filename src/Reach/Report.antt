-- ===== src/Reach/Report.antt =====
-- `check_ingresses`, `error_document` and `diagnosis` of explorer/ingress_checks.py. The acceptance
-- of the upstream and the probe of a target are the arguments that they are in the code; the times
-- are left out.
use usdb_explorer.Prelude.{
  String, Bool, true, false, if◌then◌else◌, not, ◌&&◌, ◌=s◌, List, [], ◌∷◌, ◌++◌, Option, none,
  some, any, keep, contains,
}
use usdb_explorer.Python.Exn.{
  Result, ok, raise, Exn, value_error, key_error, process_error, rpc_failure, ◌>>=◌, each,
}
use mathlib.Core.List.{map}
use usdb_explorer.Reach.{Target, skip, reach}

pub record Failure : Type 0 where
  pub category : String
  pub message : String

pub data Status : Type 0 where
  passed failed skipped : Status

abbrev pub is_failed : Status → Bool
is_failed failed = true
is_failed _ = false

abbrev pub is_skipped : Status → Bool
is_skipped skipped = true
is_skipped _ = false

-- What a probe says: whether it failed, whether the RPC and the API answered, and an error.
pub record Probe : Type 0 where
  pub has_failed : Bool
  pub rpc_passed : Bool
  pub api_passed : Bool
  pub error : Option Failure

pub record Row : Type 0 where
  pub name : String
  pub status : Status
  pub rpc_passed : Bool
  pub api_passed : Bool
  pub error : Option Failure

abbrev validation : String → Failure
validation message = record { category = "VALIDATION_ERROR"; message = message }

abbrev unexpected : Failure
unexpected =
    validation
      "Unexpected response or local validation failure; inspect upstream and Explorer readiness."

unfoldable pub error_document : Exn → Failure
error_document (rpc_failure category message) = record { category = category; message = message }
error_document (value_error message) = validation message
error_document _ = unexpected

-- `except (ValueError, OSError, KeyError, TypeError, AttributeError)`
unfoldable pub is_caught : Exn → Bool
is_caught process_error = false
is_caught _ = true

-- What the acceptance of the upstream reports.
pub record Upstream : Type 0 where
  pub pending : Bool
  pub warnings : List String

unfoldable pub row_of : String → Probe → Row
row_of name probe = record {
  name = name;
  status = if probe.has_failed then failed else passed;
  rpc_passed = probe.rpc_passed;
  api_passed = probe.api_passed;
  error = probe.error;
}

abbrev pub plain_row : String → Status → Option Failure → Row
plain_row name status error = record {
  name = name;
  status = status;
  rpc_passed = false;
  api_passed = false;
  error = error;
}

unfoldable pub probed : String → Result Probe → Result Row
probed name (ok probe) = ok (row_of name probe)
probed name (raise e) =
    if is_caught e then ok (plain_row name failed (some (error_document e))) else raise e

-- `run(target)`
unfoldable pub run : (Target → Result Probe) → Target → Result Row
run probe (skip name reason) = ok (plain_row name skipped none)
run probe (reach name origin url connect) = probed name (probe (reach name origin url connect))

-- A target behind an upstream that failed.
unfoldable pub not_run : Target → Row
not_run (skip name reason) = plain_row name skipped none
not_run (reach name origin url connect) = plain_row name skipped none

abbrev pub is_configured : Row → Bool
is_configured row = row.name =s "configured"

-- `next(row for row in rows if test(row))`
unfoldable pub first_row : (Row → Bool) → List Row → Option Row
first_row test [] = none
first_row test (row ∷ rows) = let rest = first_row test rows in if test row then some row else rest

abbrev pub failed_rows : List Row → List Row
failed_rows rows = keep (λ row. is_failed row.status) rows

abbrev pub has_answered : Row → Bool
has_answered row = elim row.status [ passed ↦ true | _ ↦ row.rpc_passed && row.api_passed ]

unfoldable pub is_reachable : List Row → Bool
is_reachable rows = any (λ row. not (is_configured row) && has_answered row) rows

abbrev pub upstream_text : String
upstream_text =
    "Upstream preflight failed; resolve its capability/connection error before canonical ingress checks."

abbrev pub all_passed_text : String
all_passed_text =
    "All checked paths passed from this host. Verify the visitor origin separately from an external client; this is a point-in-time check."

abbrev pub transport_text : String
transport_text =
    "Local Explorer RPC/API endpoints responded; the configured visitor path failed from this host. Check DNS, HTTP proxy settings, routing, port forwarding, firewall and NAT loopback, and compare from an external client. NAT is a possible cause, not confirmed. Inspect any canonical/indexing failures separately. Keep the actual visitor URL in configuration."

abbrev pub specific_text : String
specific_text =
    "Local Explorer endpoints responded; inspect the specific TLS, HTTP, RPC or canonical/indexing errors before changing network settings."

abbrev pub direct_text : String
direct_text =
    "The configured visitor path passed, but a direct host path failed; inspect its bind address, host firewall and reported validation error."

abbrev pub general_text : String
general_text =
    "Ingress checks failed; inspect the proxy listener, service health and each reported RPC/API error. Upstream preflight passed."

abbrev pub transport_categories : List String
transport_categories = "RPC_TIMEOUT" ∷ "RPC_DNS" ∷ "RPC_CONNECTION" ∷ "RPC_CONNECTION_REFUSED" ∷ []

-- `row["error"]`
abbrev pub error_entry : Option Failure → Result Failure
error_entry none = raise (key_error "error")
error_entry (some e) = ok e

abbrev pub error_at : Row → Result Failure
error_at row = error_entry row.error

-- The path of the visitors failed, and another path answers.
unfoldable pub local_diagnosis : Failure → Result String
local_diagnosis error =
    ok (if contains transport_categories error.category then transport_text else specific_text)

abbrev pub failed_text : Status → String
failed_text passed = direct_text
failed_text _ = general_text

unfoldable pub failed_diagnosis : List Row → Row → Result String
failed_diagnosis rows configured =
    if is_failed configured.status && is_reachable rows
    then (do error ← error_at configured; local_diagnosis error)
    else ok (failed_text configured.status)

-- What the rows that were checked show. `StopIteration` is no exception that a caller catches; it
-- is the missing key here.
unfoldable pub named_diagnosis : List Row → Option Row → Result String
named_diagnosis rows none = raise (key_error "configured")
named_diagnosis rows (some configured) = failed_diagnosis rows configured

unfoldable pub diagnosis_of : List Row → List Row → Result String
diagnosis_of rows [] = ok all_passed_text
diagnosis_of rows (bad ∷ more) = named_diagnosis rows (first_row is_configured rows)

unfoldable pub rows_diagnosis : List Row → Result String
rows_diagnosis rows = diagnosis_of rows (failed_rows rows)

unfoldable pub diagnosis : Bool → List Row → Result String
diagnosis true rows = ok upstream_text
diagnosis false rows = rows_diagnosis (keep (λ row. not (is_skipped row.status)) rows)

pub record Report : Type 0 where
  pub upstream_failed : Bool
  pub rows : List Row
  pub status : String
  pub error : Option Failure
  pub warnings : List String
  pub diagnosis : String

-- `report["status"]`
unfoldable pub status_of : Bool → List Row → String
status_of pending failures = elim failures [
  | [] ↦ if pending then "CHECKED_NO_TRANSACTION_SAMPLE" else "CHECKED"
  | bad ∷ more ↦ "CHECK_FAILED"
]

unfoldable pub named_error : Failure → Option Row → Result (Option Failure)
named_error first none = ok (some first)
named_error first (some configured) = do error ← error_at configured; ok (some error)

-- The error of the configured path if that failed, and else that of the first path that did, which
-- is read in any case.
unfoldable pub error_of : List Row → Result (Option Failure)
error_of [] = ok none
error_of (bad ∷ more) = do
  first ← error_at bad
  named_error first (first_row is_configured (bad ∷ more))

unfoldable pub report_of :
    (Target → Result Probe) → List Target → List String → Result Upstream → Result Report
report_of probe targets warnings (ok upstream) = do
  rows ← each (run probe) targets
  error ← error_of (failed_rows rows)
  text ← diagnosis false rows
  ok (record {
    upstream_failed = false;
    rows = rows;
    status = status_of upstream.pending (failed_rows rows);
    error = error;
    warnings = upstream.warnings ++ warnings;
    diagnosis = text;
  })
report_of probe targets warnings (raise e) = if not (is_caught e) then raise e else do
  text ← diagnosis true (map not_run targets)
  ok (record {
    upstream_failed = true;
    rows = map not_run targets;
    status = "CHECK_FAILED";
    error = some (error_document e);
    warnings = warnings;
    diagnosis = text;
  })

-- The targets, the acceptance of the upstream and the probes, in the order of the code.
unfoldable pub check_ingresses :
    Result (List Target × List String) → Result Upstream → (Target → Result Probe) → Result Report
check_ingresses targets upstream probe = do
  (found, warnings) ← targets
  report_of probe found warnings upstream
