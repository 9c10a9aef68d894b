-- ===== src/Reach/Tests.antt =====
-- A bundled ingress on all addresses, and the theorems of `Reach` at it.
use usdb_explorer.Prelude.{String, ◌≡◌, refl, Bool, true, false, List, [], ◌∷◌, none, some, Option}
use usdb_explorer.Python.Value.{Value, Fields, field, end, obj, str, nat}
use usdb_explorer.Python.Exn.{Result, ok, raise, Exn, value_error, rpc_failure}
use usdb_explorer.Config.{Url}
use usdb_explorer.Config.Ingress.{Host, Address}
use usdb_explorer.Reach.{Target, skip, reach, Discovered, ingress_targets}
use usdb_explorer.Reach.Report.{
  Failure, Status, passed, failed, skipped, Probe, Row, Upstream, Report, is_caught,
  check_ingresses,
}
use usdb_explorer.Reach.Probe.{probe_ingress}
use usdb_explorer.Reach.Honest.{IsHonest, check_ingresses-IsHonest}
use usdb_explorer.Reach.Total.{IsContained, check_ingresses_total}

abbrev url : Url
url = record {
  scheme = "http";
  hostname = some "explorer.example";
  has_credentials = false;
  query = "";
  fragment = "";
  port = ok none;
  path = "";
}

abbrev address : Address
address = record {
  version = 4;
  is_loopback = false;
  is_unspecified = true;
  is_multicast = false;
  is_link_local = false;
  has_scope = false;
  is_mapped = false;
  shown = "0.0.0.0";
}

abbrev host : Host
host = record {
  urlsplit = λ s. ok url;
  ip_address = λ given. ok address;
  ipv6_address = λ s. raise (value_error "no address");
  resolve = λ given. ok "/etc/tls";
  has_file = λ dir name. true;
}

abbrev config : Value
config = obj (
    field "ingress"
      (obj (
        field "mode" (str "bundled") (
          field "explorer_url" (str "http://explorer.example/")
            (field "bind_address" (str "0.0.0.0") (field "http_port" (nat 8080) end)))))
      end)

abbrev discovered : Discovered
discovered = ("10.0.0.7" ∷ [], none)

abbrev origin : String
origin = "http://explorer.example"

abbrev targets : List Target
targets =
    reach "loopback" origin "http://127.0.0.1:8080" (some ("127.0.0.1", nat 8080))
    ∷ reach "lan" origin "http://10.0.0.7:8080" (some ("10.0.0.7", nat 8080))
    ∷ reach "configured" origin origin none
    ∷ []

-- The path of the visitors times out, and the others pass.
abbrev probe : Target → Result Probe
probe (reach name from shown none) = raise (rpc_failure "RPC_TIMEOUT" "timeout")
probe _ = ok (record { has_failed = false; rpc_passed = true; api_passed = true; error = none })

abbrev upstream : Result Upstream
upstream = ok (record { pending = false; warnings = [] })

abbrev row : String → Status → Bool → Option Failure → Row
row name status answered error = record {
  name = name;
  status = status;
  rpc_passed = answered;
  api_passed = answered;
  error = error;
}

abbrev timeout : Failure
timeout = record { category = "RPC_TIMEOUT"; message = "timeout" }

abbrev report : Report
report = record {
  upstream_failed = false;
  rows =
      row "loopback" passed true none
      ∷ row "lan" passed true none
      ∷ row "configured" failed false (some timeout)
      ∷ [];
  status = "CHECK_FAILED";
  error = some timeout;
  warnings = [];
  diagnosis =
      "Local Explorer RPC/API endpoints responded; the configured visitor path failed from this host. Check DNS, HTTP proxy settings, routing, port forwarding, firewall and NAT loopback, and compare from an external client. NAT is a possible cause, not confirmed. Inspect any canonical/indexing failures separately. Keep the actual visitor URL in configuration.";
}

abbrev given : Result (List Target × List String)
given = ok (targets, [])

check_ingresses-IsHonest_example :
    (found : List Target) × (warnings : List String) × (given ≡ ok (found, warnings))
    × IsHonest probe found upstream report
unfolding usdb_explorer.Reach.Report.error_document usdb_explorer.Reach.Report.is_caught
    usdb_explorer.Reach.Report.row_of usdb_explorer.Reach.Report.probed
    usdb_explorer.Reach.Report.run usdb_explorer.Reach.Report.first_row
    usdb_explorer.Reach.Report.is_reachable usdb_explorer.Reach.Report.local_diagnosis
    usdb_explorer.Reach.Report.failed_diagnosis usdb_explorer.Reach.Report.named_diagnosis
    usdb_explorer.Reach.Report.diagnosis_of usdb_explorer.Reach.Report.rows_diagnosis
    usdb_explorer.Reach.Report.diagnosis usdb_explorer.Reach.Report.status_of
    usdb_explorer.Reach.Report.named_error usdb_explorer.Reach.Report.error_of
    usdb_explorer.Reach.Report.report_of usdb_explorer.Reach.Report.check_ingresses
    usdb_explorer.Python.Exn.each
check_ingresses-IsHonest_example =
    check_ingresses-IsHonest given upstream probe {report = report} refl

-- The requests to the path of the visitors time out.
abbrev asked : Target → Result (Unit {0})
asked (reach name from shown none) = raise (rpc_failure "RPC_TIMEOUT" "timeout")
asked _ = ok tt

contained : (t : Target) → IsContained (asked t) × IsContained (asked t) × IsContained (asked t)
unfolding usdb_explorer.Reach.Report.is_caught
contained (skip name reason) = (tt, tt, tt)
contained (reach name from shown none) = (refl, refl, refl)
contained (reach name from shown (some direct)) = (tt, tt, tt)

returned : (e : Exn) → upstream ≡ raise e → is_caught e ≡ true
returned e h = cc

check_ingresses_total_example :
    (made : Report) × (check_ingresses
        (ingress_targets host discovered ([], none) config)
        upstream
        (λ t. probe_ingress (asked t) (asked t) (asked t))
      ≡ ok made)
unfolding usdb_explorer.Reach.target usdb_explorer.Reach.numbered
    usdb_explorer.Reach.loopback_target usdb_explorer.Reach.found_targets
    usdb_explorer.Reach.lan_targets usdb_explorer.Reach.listener usdb_explorer.Reach.configured
    usdb_explorer.Reach.ipv6_targets usdb_explorer.Reach.bundled_targets
    usdb_explorer.Reach.ingress_targets usdb_explorer.Config.has_refused
    usdb_explorer.Config.is_plain usdb_explorer.Config.endpoint usdb_explorer.Python.Exn.get_or
    usdb_explorer.Python.Exn.subscript usdb_explorer.Python.Value.lookup
    usdb_explorer.Python.Value.truthy usdb_explorer.Python.Text.rstrip_code
    usdb_explorer.Python.Text.strip usdb_explorer.Python.Text.decimal
    usdb_explorer.Python.Regex.full_match
check_ingresses_total_example =
    check_ingresses_total host discovered ([], none) config asked asked asked upstream
      {targets = targets} {warnings = []} refl contained returned

one_failure :
    probe_ingress (ok tt) (raise (value_error "no list")) (ok tt)
    ≡ ok (record {
      has_failed = true;
      rpc_passed = true;
      api_passed = false;
      error = some (record { category = "VALIDATION_ERROR"; message = "no list" });
    })
unfolding probe_ingress usdb_explorer.Reach.Probe.note usdb_explorer.Reach.Report.is_caught
    usdb_explorer.Reach.Report.error_document
one_failure = refl
