-- ===== src/Deploy/Kept.antt =====
-- What a replacement by `prepare` of explorer/usdb_public.py keeps of the deployment before it.
use usdb_explorer.Prelude.{
  sym, ◌++◌, arith, String, ◌≡◌, refl, subst, Bool, true, false, not, ◌&&◌, some,
}
use usdb_explorer.Python.Value.{Value, obj}
use usdb_explorer.Python.Exn.{required_true, Result, ok, bind_ok, require_ok, refuse_ok}
use usdb_explorer.Python.Exn.Loops.{ok-injective}
use usdb_explorer.Config.Load.{Loaded, load_config}
use usdb_explorer.Install.Verify.{find_node}
use usdb_explorer.Deploy.{Tree, verify, read_json, verify_kit}
use usdb_explorer.Deploy.Prepare.{
  Inputs, is_given, written, same_entry, check_same, old_credentials, credentials_for,
  check_credentials, own_files, with_manifest, Plan, plan_of, stage,
}

module _ (loads : String → Result Value) (dumps : Value → String) (sha256 : String → String) where
  -- The deployment before has the files of its manifest, the id, the chain and the genesis of the
  -- new configuration; it does not run, and its credentials, two secrets, are those of the new
  -- generation, which has the files that `prepare` writes with their manifest.
  pub record IsKept (inputs : Inputs) (running : Bool) (old tree : Tree) : Type 0 where
    pub config : Value
    pub identity : Value
    pub credentials : Value
    pub manifest : Value
    pub loaded : Loaded
    pub of_config : read_json loads sha256 old "config.json" ≡ ok config
    pub of_identity : read_json loads sha256 old "identity.json" ≡ ok identity
    pub of_credentials : read_json loads sha256 old "credentials.json" ≡ ok credentials
    pub verified : verify loads sha256 inputs.location old ≡ ok manifest
    pub same_id : same_entry config (obj loaded.value) "deployment_id" ≡ ok true
    pub same_chain : same_entry identity loaded.identity "chain_id" ≡ ok true
    pub same_genesis : same_entry identity loaded.identity "genesis_block_hash" ≡ ok true
    pub asked : inputs.replace ≡ true
    pub stopped : running ≡ false
    pub no_file : is_given inputs.credentials_file ≡ false
    pub secret : check_credentials credentials ≡ ok tt
    pub kept : find_node "credentials.json" tree ≡ some (written loads dumps sha256 credentials)
    pub version : Value
    pub lock : Value
    pub documents : Tree
    pub staged :
        tree
        ≡ with_manifest loads dumps sha256 inputs.location version
            (own_files loads dumps sha256 loaded lock credentials ++ documents)
    pub new_config :
        find_node "config.json" tree ≡ some (written loads dumps sha256 (obj loaded.value))

  record IsSame (old : Tree) (loaded : Loaded) : Type 0 where
    config : Value
    identity : Value
    of_config : read_json loads sha256 old "config.json" ≡ ok config
    of_identity : read_json loads sha256 old "identity.json" ≡ ok identity
    same_id : same_entry config (obj loaded.value) "deployment_id" ≡ ok true
    same_chain : same_entry identity loaded.identity "chain_id" ≡ ok true
    same_genesis : same_entry identity loaded.identity "genesis_block_hash" ≡ ok true

  check_same-IsSame :
      (old : Tree) (loaded : Loaded) {u : Unit {0}}
      → check_same loads dumps sha256 old loaded ≡ ok u
      → IsSame old loaded
  unfolding check_same
  check_same-IsSame old loaded h =
      let (config, of_config, h1) = bind_ok (read_json loads sha256 old "config.json") _ h in
      let (identity, of_identity, h2) = bind_ok (read_json loads sha256 old "identity.json") _ h1 in
      let (b, at_id, h3) = bind_ok (same_entry config (obj loaded.value) "deployment_id") _ h2 in
      let (id_true, h4) = require_ok b _ _ h3 in
      let (c, at_chain, h5) = bind_ok (same_entry identity loaded.identity "chain_id") _ h4 in
      let (chain_true, h6) = require_ok c _ _ h5 in
      let (g, at_genesis, h7) =
        bind_ok (same_entry identity loaded.identity "genesis_block_hash") _ h6 in
      let genesis_true = required_true g _ h7 in
      record {
        config = config;
        identity = identity;
        of_config = of_config;
        of_identity = of_identity;
        same_id =
            subst (λ x. same_entry config (obj loaded.value) "deployment_id" ≡ ok x) id_true at_id;
        same_chain =
            subst (λ x. same_entry identity loaded.identity "chain_id" ≡ ok x) chain_true at_chain;
        same_genesis =
            subst (λ x. same_entry identity loaded.identity "genesis_block_hash" ≡ ok x)
              genesis_true at_genesis;
      }

  -- What the credentials of a replacement come from.
  record IsRetained (inputs : Inputs) (loaded : Loaded) (running : Bool) (old : Tree)
      (credentials : Value) : Type 0 where
    manifest : Value
    same : IsSame old loaded
    verified : verify loads sha256 inputs.location old ≡ ok manifest
    stopped : running ≡ false
    no_file : is_given inputs.credentials_file ≡ false
    of_credentials : read_json loads sha256 old "credentials.json" ≡ ok credentials

  old_credentials-IsRetained :
      (inputs : Inputs) (loaded : Loaded) (running : Bool) (old : Tree) {credentials : Value}
      → old_credentials loads dumps sha256 inputs loaded running old ≡ ok credentials
      → IsRetained inputs loaded running old credentials
  unfolding old_credentials
  old_credentials-IsRetained inputs loaded running old h =
      let (manifest, verified, h1) = bind_ok (verify loads sha256 inputs.location old) _ h in
      let (u, checked, h2) = bind_ok (check_same loads dumps sha256 old loaded) _ h1 in
      let (no_file, h3) = refuse_ok (is_given inputs.credentials_file) _ _ h2 in
      let (stopped, of_credentials) = refuse_ok running _ _ h3 in
      record {
        manifest = manifest;
        same = check_same-IsSame old loaded checked;
        verified = verified;
        stopped = stopped;
        no_file = no_file;
        of_credentials = of_credentials;
      }

  -- A generation that is staged over a deployment is kept in this sense.
  pub stage-IsKept :
      (render : Loaded → Value → Value → Result Tree) (inputs : Inputs) (running : Bool)
      (old tree : Tree) {p : Plan}
      → plan_of loads dumps sha256 inputs running (some old) ≡ ok p
      → stage loads dumps sha256 render inputs p ≡ ok tree
      → IsKept inputs running old tree
  unfolding plan_of stage credentials_for own_files with_manifest find_node
  stage-IsKept render inputs running old tree {p} h made =
      let (version, _, h1) =
        bind_ok (verify_kit loads sha256 inputs.kit_tree inputs.has_gateway) _ h in
      let (config, _, h2) = bind_ok inputs.config _ h1 in
      let (loaded, _, h3) = bind_ok (load_config inputs.host inputs.kit config) _ h2 in
      let (lock, _, h4) = bind_ok inputs.kit.lock _ h3 in
      let (asked, h5) = refuse_ok (true && not inputs.replace) _ _ h4 in
      let (credentials, taken, h6) =
        bind_ok (old_credentials loads dumps sha256 inputs loaded running old) _ h5 in
      let (u, secret, h7) = bind_ok (check_credentials credentials) _ h6 in
      let (documents, _, h8) = bind_ok (render loaded lock credentials) _ (
        subst (λ q. stage loads dumps sha256 render inputs q ≡ ok tree) (sym (ok-injective h7))
          made) in
      let found = old_credentials-IsRetained inputs loaded running old taken in
      let staged = ok-injective h8 in
      record {
        config = found.same.config;
        identity = found.same.identity;
        credentials = credentials;
        manifest = found.manifest;
        loaded = loaded;
        of_config = found.same.of_config;
        of_identity = found.same.of_identity;
        of_credentials = found.of_credentials;
        verified = found.verified;
        same_id = found.same.same_id;
        same_chain = found.same.same_chain;
        same_genesis = found.same.same_genesis;
        asked = ground arith;
        stopped = found.stopped;
        no_file = found.no_file;
        secret = secret;
        version = version;
        lock = lock;
        documents = documents;
        staged = sym staged;
        kept =
            subst
              (λ t. find_node "credentials.json" t ≡ some (written loads dumps sha256 credentials))
              staged refl;
        new_config =
            subst
              (λ t.
                find_node "config.json" t ≡ some (written loads dumps sha256 (obj loaded.value)))
              staged refl;
      }
