-- ===== src/Config/Tests.antt =====
-- Runs of the parts of `load_config`.
use usdb_explorer.Prelude.{String, ◌≡◌, refl, false, some, ◌=s◌, if◌then◌else◌}
use usdb_explorer.Python.Value.{Value, int, Fields, field, end, null, obj, str}
use usdb_explorer.Prelude.Int.{pos}
use usdb_explorer.Python.Exn.{Result, ok, raise, value_error}
use usdb_explorer.Config.{Url, endpoint}
use usdb_explorer.Config.Upstream.{load_rpc}
use usdb_explorer.Config.Memory.{IsBudgeted, load_resources, load_resources-IsBudgeted}

abbrev url_of : String → Url
url_of host = record {
  scheme = "http";
  hostname = some host;
  has_credentials = false;
  query = "";
  fragment = "";
  port = ok (some 8545);
  path = "";
}

-- URLs with a host of the loopback interface or with another one.
abbrev split : String → Result Url
split value =
    if value =s "http://10.0.0.7:8545" then ok (url_of "10.0.0.7") else ok (url_of "127.0.0.1")

abbrev local_node : Value
local_node = obj (field "mode" (str "local-node") (field "indexer_url" null end))

abbrev filled : Fields
filled = field "mode" (str "local-node") (
    field "indexer_url" null (
      field "read_url" (str "http://127.0.0.1:8545") (
        field "trace_url" (str "http://127.0.0.1:8545")
          (field "broadcast_url" (str "http://127.0.0.1:8545") end))))

far_trace :
    load_rpc split
      (obj (field "mode" (str "local-node") (field "trace_url" (str "http://10.0.0.7:8545") end)))
    ≡ raise (value_error "local-node endpoint must use an HTTP loopback endpoint")
unfolding load_rpc usdb_explorer.Config.Upstream.with_defaults usdb_explorer.Config.fields
    usdb_explorer.Python.Value.keys usdb_explorer.Python.Exn.subscript
    usdb_explorer.Python.Value.lookup usdb_explorer.Faucet.set_default
    usdb_explorer.Config.Upstream.check_mode usdb_explorer.Config.Upstream.local_defaults
    usdb_explorer.Config.Upstream.route_defaults usdb_explorer.Python.Value.assign
    usdb_explorer.Config.is_plain usdb_explorer.Config.Upstream.check_indexer
    usdb_explorer.Config.Upstream.check_urls usdb_explorer.Config.Upstream.check_url
    usdb_explorer.Config.Upstream.is_loopback usdb_explorer.Python.Regex.full_match endpoint
    usdb_explorer.Config.has_refused usdb_explorer.Python.Text.is_space
far_trace = refl

small_budget :
    load_resources false (some (obj (field "memory_budget_gib" (int (pos 5)) end)))
    ≡ raise (value_error "invalid resource budget")
unfolding load_resources usdb_explorer.Config.fields usdb_explorer.Python.Value.keys
    usdb_explorer.Config.Memory.check_numbers usdb_explorer.Config.Memory.resource_defaults
    usdb_explorer.Faucet.set_default usdb_explorer.Python.Value.lookup
    usdb_explorer.Python.Value.assign usdb_explorer.Config.Memory.is_number
small_budget = refl
