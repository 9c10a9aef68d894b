-- ===== src/Deploy/Tests.antt =====
-- A deployment and its replacement, and the theorems of `Deploy` at them.
use usdb_explorer.Prelude.{
  String, ◌<>◌, ◌≡◌, refl, true, false, [], ◌∷◌, ◌++◌, none, some, ◌=s◌, if◌then◌else◌,
}
use usdb_explorer.Python.Value.{Value, Fields, keys, field, end, obj, str, bool}
use usdb_explorer.Python.Exn.{Result, ok, raise, value_error}
use usdb_explorer.Rpc.Calls.{Outcome, done, failed}
use usdb_explorer.Config.Load.{Kit, Loaded}
use usdb_explorer.Config.Examples.{host, kit, config, identity, ingress}
use usdb_explorer.Install.{Node, file}
use usdb_explorer.Deploy.{Tree, deployment_schema, verify}
use usdb_explorer.Deploy.Json.{sort_keys}
use usdb_explorer.Deploy.Prepare.{Inputs, own_files, manifest_of, with_manifest, plan_of, stage}
use usdb_explorer.Deploy.Replace.{World, prepare}
use usdb_explorer.Deploy.Kept.{IsKept}
use usdb_explorer.Deploy.Replaced.{IsPrepared, started, prepare-IsPrepared, prepare-IsKept}
use usdb_explorer.Deploy.Verifies.{verify-with_manifest}

abbrev secret : String
secret = "0123456789abcdef0123456789abcdef0123456789abcdef0123456789abcdef"

abbrev credentials : Value
credentials = obj (field "database" (str secret) (field "backend" (str secret) end))

abbrev old_manifest : Value
old_manifest = obj (
    field "schema_version" deployment_schema (
      field "state_dir" (str "/srv/one") (
        field "files"
          (obj (
            field "credentials.json" (str "credentials") (
              field "config.json" (str "config") (
                field "identity.json" (str "identity") (
                  field "images.lock.json" (str "lock") (
                    field "network.json" (str "network")
                      (field "compose.json" (str "compose") end)))))))
          end)))

abbrev digest : String → String
digest s = s

abbrev old : Tree
old =
    ("credentials.json", file "credentials")
    ∷ ("config.json", file "config")
    ∷ ("identity.json", file "identity")
    ∷ ("images.lock.json", file "lock")
    ∷ ("network.json", file "network")
    ∷ ("compose.json", file "compose")
    ∷ ("deployment.json", file "manifest")
    ∷ []

abbrev parse : String → Result Value
parse s =
    if s =s "manifest"
    then ok old_manifest
    else if s =s "config"
    then ok (config "public")
    else if s =s "identity"
    then ok identity
    else if s =s "credentials"
    then ok credentials
    else raise (value_error "no JSON")

abbrev print : Value → String
print v = "text"

abbrev render : Loaded → Value → Value → Result Tree
render loaded lock taken =
    ok (("network.json", file "network") ∷ ("compose.json", file "compose") ∷ [])

abbrev inputs : Inputs
inputs = record {
  host = host;
  kit = record kit { lock = ok (obj (field "qualified_for_public_exposure" (bool true) end)) };
  kit_tree = [];
  has_gateway = true;
  config = ok (config "public");
  replace = true;
  credentials_file = none;
  fresh = credentials;
  location = "/srv/one";
}

abbrev world_of : {A : Type 0} → Outcome World A → World
world_of (done a w) = w
world_of (failed e w) = w

abbrev replaced : World
replaced = world_of (prepare parse print digest render inputs (started (some old) false none))

returned :
    prepare parse print digest render inputs (started (some old) false none) ≡ done tt replaced
unfolding usdb_explorer.Config.fields usdb_explorer.Config.has_refused usdb_explorer.Config.is_plain
    usdb_explorer.Config.endpoint usdb_explorer.Config.Upstream.check_mode
    usdb_explorer.Config.Upstream.local_defaults usdb_explorer.Config.Upstream.route_defaults
    usdb_explorer.Config.Upstream.with_defaults usdb_explorer.Config.Upstream.is_loopback
    usdb_explorer.Config.Upstream.check_url usdb_explorer.Config.Upstream.check_urls
    usdb_explorer.Config.Upstream.check_indexer usdb_explorer.Config.Upstream.load_rpc
    usdb_explorer.Config.Memory.is_number usdb_explorer.Config.Memory.check_numbers
    usdb_explorer.Config.Memory.resource_defaults usdb_explorer.Config.Memory.load_resources
    usdb_explorer.Config.Ingress.one_of usdb_explorer.Config.Ingress.read_visit
    usdb_explorer.Config.Ingress.bind_ipv4 usdb_explorer.Config.Ingress.bind_ipv6
    usdb_explorer.Config.Ingress.check_exposure usdb_explorer.Config.Ingress.port_number
    usdb_explorer.Config.Ingress.port_at usdb_explorer.Config.Ingress.set_ports
    usdb_explorer.Config.Ingress.listed_ports usdb_explorer.Config.Ingress.with_faucet
    usdb_explorer.Config.Ingress.with_tls usdb_explorer.Config.Ingress.distinct_ports
    usdb_explorer.Config.Ingress.load_ingress usdb_explorer.Config.Load.load_site
    usdb_explorer.Config.Load.check_names usdb_explorer.Config.Load.load_identity
    usdb_explorer.Config.Load.has_faucet usdb_explorer.Config.Load.load_names
    usdb_explorer.Config.Load.load_config usdb_explorer.Faucet.set_default
    usdb_explorer.Faucet.validate_faucet usdb_explorer.Security.requested_mode
    usdb_explorer.Security.network_mode usdb_explorer.Security.security_enforcement
    usdb_explorer.Python.Exn.get usdb_explorer.Python.Exn.get_or usdb_explorer.Python.Exn.subscript
    usdb_explorer.Python.Value.lookup usdb_explorer.Python.Value.assign
    usdb_explorer.Python.Value.keys usdb_explorer.Python.Value.truthy
    usdb_explorer.Python.Value.within usdb_explorer.Python.Text.rstrip_code
    usdb_explorer.Python.Text.strip usdb_explorer.Python.Regex.full_match
    usdb_explorer.Deploy.has_required usdb_explorer.Deploy.check_hash
    usdb_explorer.Deploy.check_hashes usdb_explorer.Deploy.verify_files
    usdb_explorer.Deploy.read_json usdb_explorer.Deploy.verify_kit usdb_explorer.Deploy.verify
    usdb_explorer.Deploy.Prepare.is_secret usdb_explorer.Deploy.Prepare.all_secret
    usdb_explorer.Deploy.Prepare.check_credentials usdb_explorer.Deploy.Prepare.same_entry
    usdb_explorer.Deploy.Prepare.file_hashes usdb_explorer.Deploy.Prepare.check_same
    usdb_explorer.Deploy.Prepare.old_credentials usdb_explorer.Deploy.Prepare.credentials_for
    usdb_explorer.Deploy.Prepare.own_files usdb_explorer.Deploy.Prepare.with_manifest
    usdb_explorer.Deploy.Prepare.plan_of usdb_explorer.Deploy.Prepare.stage
    usdb_explorer.Deploy.Replace.make_staging usdb_explorer.Deploy.Replace.after_call
    usdb_explorer.Deploy.Replace.call usdb_explorer.Deploy.Replace.write_staging
    usdb_explorer.Deploy.Replace.move_away usdb_explorer.Deploy.Replace.move_back
    usdb_explorer.Deploy.Replace.put_in_place usdb_explorer.Deploy.Replace.back_up
    usdb_explorer.Deploy.Replace.roll_back usdb_explorer.Deploy.Replace.swap
    usdb_explorer.Deploy.Replace.drop_staging usdb_explorer.Deploy.Replace.clean_up
    usdb_explorer.Deploy.Replace.switch usdb_explorer.Deploy.Replace.prepare
    usdb_explorer.Install.Links.rescue usdb_explorer.Install.Links.finally
    usdb_explorer.Install.Verify.find_node usdb_explorer.Rpc.Calls.lift usdb_explorer.Rpc.Calls.pure
    usdb_explorer.Rpc.Calls.◌>>=◌ usdb_explorer.Rpc.Calls.◌>>◌
returned = refl

rolled_back :
    world_of (prepare parse print digest render inputs (started (some old) false (some 3)))
    ≡ started (some old) false none
unfolding usdb_explorer.Config.fields usdb_explorer.Config.has_refused usdb_explorer.Config.is_plain
    usdb_explorer.Config.endpoint usdb_explorer.Config.Upstream.check_mode
    usdb_explorer.Config.Upstream.local_defaults usdb_explorer.Config.Upstream.route_defaults
    usdb_explorer.Config.Upstream.with_defaults usdb_explorer.Config.Upstream.is_loopback
    usdb_explorer.Config.Upstream.check_url usdb_explorer.Config.Upstream.check_urls
    usdb_explorer.Config.Upstream.check_indexer usdb_explorer.Config.Upstream.load_rpc
    usdb_explorer.Config.Memory.is_number usdb_explorer.Config.Memory.check_numbers
    usdb_explorer.Config.Memory.resource_defaults usdb_explorer.Config.Memory.load_resources
    usdb_explorer.Config.Ingress.one_of usdb_explorer.Config.Ingress.read_visit
    usdb_explorer.Config.Ingress.bind_ipv4 usdb_explorer.Config.Ingress.bind_ipv6
    usdb_explorer.Config.Ingress.check_exposure usdb_explorer.Config.Ingress.port_number
    usdb_explorer.Config.Ingress.port_at usdb_explorer.Config.Ingress.set_ports
    usdb_explorer.Config.Ingress.listed_ports usdb_explorer.Config.Ingress.with_faucet
    usdb_explorer.Config.Ingress.with_tls usdb_explorer.Config.Ingress.distinct_ports
    usdb_explorer.Config.Ingress.load_ingress usdb_explorer.Config.Load.load_site
    usdb_explorer.Config.Load.check_names usdb_explorer.Config.Load.load_identity
    usdb_explorer.Config.Load.has_faucet usdb_explorer.Config.Load.load_names
    usdb_explorer.Config.Load.load_config usdb_explorer.Faucet.set_default
    usdb_explorer.Faucet.validate_faucet usdb_explorer.Security.requested_mode
    usdb_explorer.Security.network_mode usdb_explorer.Security.security_enforcement
    usdb_explorer.Python.Exn.get usdb_explorer.Python.Exn.get_or usdb_explorer.Python.Exn.subscript
    usdb_explorer.Python.Value.lookup usdb_explorer.Python.Value.assign
    usdb_explorer.Python.Value.keys usdb_explorer.Python.Value.truthy
    usdb_explorer.Python.Value.within usdb_explorer.Python.Text.rstrip_code
    usdb_explorer.Python.Text.strip usdb_explorer.Python.Regex.full_match
    usdb_explorer.Deploy.has_required usdb_explorer.Deploy.check_hash
    usdb_explorer.Deploy.check_hashes usdb_explorer.Deploy.verify_files
    usdb_explorer.Deploy.read_json usdb_explorer.Deploy.verify_kit usdb_explorer.Deploy.verify
    usdb_explorer.Deploy.Prepare.is_secret usdb_explorer.Deploy.Prepare.all_secret
    usdb_explorer.Deploy.Prepare.check_credentials usdb_explorer.Deploy.Prepare.same_entry
    usdb_explorer.Deploy.Prepare.file_hashes usdb_explorer.Deploy.Prepare.check_same
    usdb_explorer.Deploy.Prepare.old_credentials usdb_explorer.Deploy.Prepare.credentials_for
    usdb_explorer.Deploy.Prepare.own_files usdb_explorer.Deploy.Prepare.with_manifest
    usdb_explorer.Deploy.Prepare.plan_of usdb_explorer.Deploy.Prepare.stage
    usdb_explorer.Deploy.Replace.make_staging usdb_explorer.Deploy.Replace.after_call
    usdb_explorer.Deploy.Replace.call usdb_explorer.Deploy.Replace.write_staging
    usdb_explorer.Deploy.Replace.move_away usdb_explorer.Deploy.Replace.move_back
    usdb_explorer.Deploy.Replace.put_in_place usdb_explorer.Deploy.Replace.back_up
    usdb_explorer.Deploy.Replace.roll_back usdb_explorer.Deploy.Replace.swap
    usdb_explorer.Deploy.Replace.drop_staging usdb_explorer.Deploy.Replace.clean_up
    usdb_explorer.Deploy.Replace.switch usdb_explorer.Deploy.Replace.prepare
    usdb_explorer.Install.Links.rescue usdb_explorer.Install.Links.finally
    usdb_explorer.Install.Verify.find_node usdb_explorer.Rpc.Calls.lift usdb_explorer.Rpc.Calls.pure
    usdb_explorer.Rpc.Calls.◌>>=◌ usdb_explorer.Rpc.Calls.◌>>◌
rolled_back = refl

refused_while_running :
    plan_of parse print digest inputs true (some old)
    ≡ raise (value_error "run usdb-public down before replacing this deployment configuration")
unfolding usdb_explorer.Config.fields usdb_explorer.Config.has_refused usdb_explorer.Config.is_plain
    usdb_explorer.Config.endpoint usdb_explorer.Config.Upstream.check_mode
    usdb_explorer.Config.Upstream.local_defaults usdb_explorer.Config.Upstream.route_defaults
    usdb_explorer.Config.Upstream.with_defaults usdb_explorer.Config.Upstream.is_loopback
    usdb_explorer.Config.Upstream.check_url usdb_explorer.Config.Upstream.check_urls
    usdb_explorer.Config.Upstream.check_indexer usdb_explorer.Config.Upstream.load_rpc
    usdb_explorer.Config.Memory.is_number usdb_explorer.Config.Memory.check_numbers
    usdb_explorer.Config.Memory.resource_defaults usdb_explorer.Config.Memory.load_resources
    usdb_explorer.Config.Ingress.one_of usdb_explorer.Config.Ingress.read_visit
    usdb_explorer.Config.Ingress.bind_ipv4 usdb_explorer.Config.Ingress.bind_ipv6
    usdb_explorer.Config.Ingress.check_exposure usdb_explorer.Config.Ingress.port_number
    usdb_explorer.Config.Ingress.port_at usdb_explorer.Config.Ingress.set_ports
    usdb_explorer.Config.Ingress.listed_ports usdb_explorer.Config.Ingress.with_faucet
    usdb_explorer.Config.Ingress.with_tls usdb_explorer.Config.Ingress.distinct_ports
    usdb_explorer.Config.Ingress.load_ingress usdb_explorer.Config.Load.load_site
    usdb_explorer.Config.Load.check_names usdb_explorer.Config.Load.load_identity
    usdb_explorer.Config.Load.has_faucet usdb_explorer.Config.Load.load_names
    usdb_explorer.Config.Load.load_config usdb_explorer.Faucet.set_default
    usdb_explorer.Faucet.validate_faucet usdb_explorer.Security.requested_mode
    usdb_explorer.Security.network_mode usdb_explorer.Security.security_enforcement
    usdb_explorer.Python.Exn.get usdb_explorer.Python.Exn.get_or usdb_explorer.Python.Exn.subscript
    usdb_explorer.Python.Value.lookup usdb_explorer.Python.Value.assign
    usdb_explorer.Python.Value.keys usdb_explorer.Python.Value.truthy
    usdb_explorer.Python.Value.within usdb_explorer.Python.Text.rstrip_code
    usdb_explorer.Python.Text.strip usdb_explorer.Python.Regex.full_match
    usdb_explorer.Deploy.has_required usdb_explorer.Deploy.check_hash
    usdb_explorer.Deploy.check_hashes usdb_explorer.Deploy.verify_files
    usdb_explorer.Deploy.read_json usdb_explorer.Deploy.verify_kit usdb_explorer.Deploy.verify
    usdb_explorer.Deploy.Prepare.is_secret usdb_explorer.Deploy.Prepare.all_secret
    usdb_explorer.Deploy.Prepare.check_credentials usdb_explorer.Deploy.Prepare.same_entry
    usdb_explorer.Deploy.Prepare.file_hashes usdb_explorer.Deploy.Prepare.check_same
    usdb_explorer.Deploy.Prepare.old_credentials usdb_explorer.Deploy.Prepare.credentials_for
    usdb_explorer.Deploy.Prepare.own_files usdb_explorer.Deploy.Prepare.with_manifest
    usdb_explorer.Deploy.Prepare.plan_of usdb_explorer.Deploy.Prepare.stage
    usdb_explorer.Deploy.Replace.make_staging usdb_explorer.Deploy.Replace.after_call
    usdb_explorer.Deploy.Replace.call usdb_explorer.Deploy.Replace.write_staging
    usdb_explorer.Deploy.Replace.move_away usdb_explorer.Deploy.Replace.move_back
    usdb_explorer.Deploy.Replace.put_in_place usdb_explorer.Deploy.Replace.back_up
    usdb_explorer.Deploy.Replace.roll_back usdb_explorer.Deploy.Replace.swap
    usdb_explorer.Deploy.Replace.drop_staging usdb_explorer.Deploy.Replace.clean_up
    usdb_explorer.Deploy.Replace.switch usdb_explorer.Deploy.Replace.prepare
    usdb_explorer.Install.Links.rescue usdb_explorer.Install.Links.finally
    usdb_explorer.Install.Verify.find_node usdb_explorer.Rpc.Calls.lift usdb_explorer.Rpc.Calls.pure
    usdb_explorer.Rpc.Calls.◌>>=◌ usdb_explorer.Rpc.Calls.◌>>◌
refused_while_running = refl

prepare-IsPrepared_example :
    IsPrepared
      (started (some old) false (some 3))
      (plan_of parse print digest inputs false (some old))
      (stage parse print digest render inputs)
      (prepare parse print digest render inputs (started (some old) false (some 3)))
prepare-IsPrepared_example =
    prepare-IsPrepared parse print digest render inputs (some old) false (some 3)

prepare-IsKept_example :
    (tree : Tree) × (replaced.root ≡ some tree)
    × (replaced.backup ≡ some old)
    × IsKept parse print digest inputs false old tree
prepare-IsKept_example =
    prepare-IsKept parse print digest render inputs old false none replaced returned

abbrev taken_over : Loaded
taken_over = record {
  value = field "deployment_id" (str "usdb-one") end;
  identity = identity;
  local = true;
  rpc = end;
  ingress = ingress;
  resources = end;
}

abbrev documents : Tree
documents = ("network.json", file "network") ∷ ("compose.json", file "compose") ∷ []

-- JSON of texts and dicts, with the keys as they stand; these texts have nothing to escape.
unfoldable mutual
  json_value : Value → String
  json_value (obj d) = "{" <> json_fields d <> "}"
  json_value (str s) = "'" <> s <> "'"
  json_value _ = "null"

  json_fields : Fields → String
  json_fields end = ""
  json_fields (field k v rest) = "'" <> k <> "':" <> json_value v <> "," <> json_fields rest

abbrev obj_fields : Value → Fields
obj_fields (obj d) = d
obj_fields _ = end

abbrev files : Tree
files = own_files parse json_value digest taken_over (obj end) credentials ++ documents

abbrev new_manifest : Value
new_manifest = sort_keys (manifest_of parse json_value digest "/srv/one" (str "1.0.0") files)

abbrev reader : String → Result Value
reader s = if s =s json_value new_manifest then ok new_manifest else raise (value_error "no JSON")

-- The keys stand in their order in what is read back.
sorted_names :
    keys (obj_fields new_manifest)
    ≡ "files" ∷ "release_version" ∷ "schema_version" ∷ "state_dir" ∷ []
unfolding usdb_explorer.Deploy.Json.insert_field usdb_explorer.Deploy.Json.sort_keys
    usdb_explorer.Deploy.Json.sort_fields usdb_explorer.Deploy.Prepare.own_files
    usdb_explorer.Deploy.Prepare.file_hashes usdb_explorer.Python.Text.lt_str
    usdb_explorer.Python.Value.keys json_value json_fields
sorted_names = refl

verify-with_manifest_example :
    verify reader digest "/srv/one"
      (with_manifest reader json_value digest "/srv/one" (str "1.0.0") files)
    ≡ ok new_manifest
unfolding usdb_explorer.Deploy.Json.insert_field usdb_explorer.Deploy.Json.sort_keys
    usdb_explorer.Deploy.Json.sort_fields usdb_explorer.Deploy.Prepare.own_files
    usdb_explorer.Deploy.Prepare.file_hashes usdb_explorer.Python.Text.lt_str
    usdb_explorer.Python.Value.keys json_value json_fields
verify-with_manifest_example =
    verify-with_manifest reader json_value digest "/srv/one" (str "1.0.0") taken_over (obj end)
      credentials documents refl refl refl
