-- ===== src/Config/Examples.antt =====
-- A public deployment with its own proxy, and the theorems of `Config` at it.
use usdb_explorer.Prelude.{String, ◌≡◌, refl, Bool, true, false, [], ◌∷◌, none, some, ◌=s◌}
use usdb_explorer.Python.Value.{Value, Fields, field, end, obj, str, nat, bool}
use usdb_explorer.Python.Exn.{Result, ok, raise, value_error}
use usdb_explorer.Config.{Url}
use usdb_explorer.Config.Ingress.{Host, Address, Visit, Ingress, load_ingress}
use usdb_explorer.Config.Images.{image_lock}
use usdb_explorer.Config.Load.{Kit, Loaded}
use usdb_explorer.Config.Locked.{IsLocked, image_lock-IsLocked}

abbrev url : Url
url = record {
  scheme = "http";
  hostname = some "127.0.0.1";
  has_credentials = false;
  query = "";
  fragment = "";
  port = ok none;
  path = "";
}

abbrev address : Value → Address
address given = record {
  version = 4;
  is_loopback = false;
  is_unspecified = true;
  is_multicast = false;
  is_link_local = false;
  has_scope = false;
  is_mapped = false;
  shown = "0.0.0.0";
}

abbrev pub host : Host
host = record {
  urlsplit = λ s. ok url;
  ip_address = λ given. ok (address given);
  ipv6_address = λ s. raise (value_error "no address");
  resolve = λ given. ok "/etc/tls";
  has_file = λ dir name. true;
}

abbrev hash_text : String
hash_text = "0x0000000000000000000000000000000000000000000000000000000000000000"

abbrev pub identity : Value
identity = obj (
    field "bundle_id" (str "usdb-testnet-v2") (
      field "chain_id" (nat 7)
        (field "network_id" (nat 7) (field "genesis_block_hash" (str hash_text) end))))

abbrev pub kit : Kit
kit = record {
  has_network = λ name. name =s "usdb-testnet-v2";
  network = λ name. ok identity;
  lock = raise (value_error "no lock");
}

abbrev ingress_fields : String → Fields
ingress_fields exposure = field "mode" (str "bundled") (
    field "explorer_url" (str "http://127.0.0.1/")
      (field "exposure" (str exposure) (field "bind_address" (str "0.0.0.0") end)))

abbrev pub config : String → Value
config exposure = obj (
    field "schema_version" (str "usdb-public-config:v1") (
      field "deployment_id" (str "usdb-one") (
        field "network" (str "usdb-testnet-v2") (
          field "rpc" (obj (field "mode" (str "local-node") end))
            (field "ingress" (obj (ingress_fields exposure)) end)))))

abbrev settings : Fields
settings = field "mode" (str "bundled") (
    field "explorer_url" (str "http://127.0.0.1") (
      field "exposure" (str "public") (
        field "bind_address" (str "0.0.0.0") (
          field "web_port" (nat 28080) (
            field "gateway_port" (nat 28081)
              (field "http_port" (nat 28080) (field "https_port" (nat 28443) end)))))))

abbrev pub ingress : Ingress
ingress = record {
  visit = record {
    bundled = true;
    public = true;
    origin = url;
    settings = field "mode" (str "bundled") (
        field "explorer_url" (str "http://127.0.0.1")
          (field "exposure" (str "public") (field "bind_address" (str "0.0.0.0") end)));
  };
  address = address (str "0.0.0.0");
  ports = 28080 ∷ [];
  settings = settings;
}

private_on_all :
    load_ingress host
      (str "usdb-testnet-v2")
      false
      (raise (value_error "no lock"))
      (obj (ingress_fields "private"))
    ≡ raise (value_error "private deployments must bind loopback")
unfolding usdb_explorer.Config.fields usdb_explorer.Config.has_refused usdb_explorer.Config.is_plain
    usdb_explorer.Config.endpoint usdb_explorer.Config.Ingress.one_of
    usdb_explorer.Config.Ingress.read_visit usdb_explorer.Config.Ingress.bind_ipv4
    usdb_explorer.Config.Ingress.load_ingress usdb_explorer.Faucet.set_default
    usdb_explorer.Python.Exn.subscript usdb_explorer.Python.Value.lookup
    usdb_explorer.Python.Value.assign usdb_explorer.Python.Value.keys
    usdb_explorer.Python.Text.strip usdb_explorer.Python.Regex.full_match
private_on_all = refl

abbrev rpc : Fields
rpc = field "mode" (str "local-node") (
    field "read_url" (str "http://127.0.0.1:8545") (
      field "indexer_url" (str "http://127.0.0.1:28020") (
        field "trace_url" (str "http://127.0.0.1:8545")
          (field "broadcast_url" (str "http://127.0.0.1:8545") end))))

abbrev resources : Fields
resources = field "memory_budget_gib" (nat 6) (field "other_services_memory_gib" (str "auto") end)

abbrev loaded : Loaded
loaded = record {
  value = field "schema_version" (str "usdb-public-config:v1") (
      field "deployment_id" (str "usdb-one") (
        field "network" (str "usdb-testnet-v2") (
          field "rpc" (obj rpc)
            (field "ingress" (obj settings) (field "resources" (obj resources) end)))));
  identity = identity;
  local = true;
  rpc = rpc;
  ingress = ingress;
  resources = resources;
}

abbrev image : Value
image = obj (
    field "reference"
      (str "ghcr.io/one@sha256:0000000000000000000000000000000000000000000000000000000000000000")
      end)

abbrev images : Bool → Fields → Fields
images source more = field "backend" image (
    field "frontend"
      (elim source [
        | true ↦ obj (
            field "build_from_source" (bool true) (
              field "reference"
                (str
                  "ghcr.io/one@sha256:0000000000000000000000000000000000000000000000000000000000000000")
                end))
        | false ↦ image
      ])
      (field "postgres" image (field "redis" image (field "nginx" image (field "go" image more)))))

abbrev lock : Fields → Value
lock found = obj (
    field "schema_version" (str "usdb-public-service-images:v1")
      (field "qualified_for_public_exposure" (bool false) (field "images" (obj found) end)))

image_lock-IsLocked_example : IsLocked (lock (images false end))
unfolding usdb_explorer.Config.Images.named_images usdb_explorer.Config.Images.all_pinned
    usdb_explorer.Config.Images.image_lock usdb_explorer.Python.Exn.get
    usdb_explorer.Python.Exn.get_or usdb_explorer.Python.Exn.subscript
    usdb_explorer.Python.Value.lookup usdb_explorer.Python.Value.keys
    usdb_explorer.Python.Value.truthy usdb_explorer.Python.Value.within
    usdb_explorer.Python.Regex.full_match
image_lock-IsLocked_example = image_lock-IsLocked (lock (images false end)) refl

no_node :
    image_lock (lock (images true end))
    ≡ raise (value_error "source frontend builds require a frozen Node image")
unfolding usdb_explorer.Config.Images.named_images usdb_explorer.Config.Images.all_pinned
    usdb_explorer.Config.Images.image_lock usdb_explorer.Python.Exn.get
    usdb_explorer.Python.Exn.get_or usdb_explorer.Python.Exn.subscript
    usdb_explorer.Python.Value.lookup usdb_explorer.Python.Value.keys
    usdb_explorer.Python.Value.truthy usdb_explorer.Python.Value.within
    usdb_explorer.Python.Regex.full_match
no_node = refl
