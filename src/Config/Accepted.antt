-- ===== src/Config/Accepted.antt =====
-- What `load_config` of explorer/public_config.py has checked of an accepted configuration, and
-- `image_lock` of an accepted lock.
use usdb_explorer.Prelude.{String, Bool, ◌≡◌, true, some}
use usdb_explorer.Python.Value.{Value, Fields, obj, lookup}
use usdb_explorer.Python.Exn.{ok}
use usdb_explorer.Python.Regex.{full_match}
use usdb_explorer.Security.{testnet_re}
use usdb_explorer.Config.Loopback.{IsChecked}
use usdb_explorer.Config.Memory.{IsBudgeted}
use usdb_explorer.Config.Ingress.{Host}
use usdb_explorer.Config.Configured.{IsConfigured}
use usdb_explorer.Config.Listening.{IsListening}
use usdb_explorer.Config.Load.{Kit, Loaded, load_names, has_faucet}

-- The parts of an accepted configuration are what they have to be, its ingress is the configured one,
-- and the normalised value has them.
pub record IsAccepted (h : Host) (kit : Kit) (value : Value) (loaded : Loaded) : Type 0 where
  pub config : Fields
  pub named : load_names h kit value ≡ ok (config, loaded.identity)
  pub faucet : Bool
  pub of_faucet : has_faucet config ≡ ok faucet
  pub given_ingress : Value
  pub of_given : lookup "ingress" config ≡ some given_ingress
  pub configured : IsConfigured h faucet given_ingress loaded.ingress
  pub routes : IsChecked h.urlsplit loaded.local loaded.rpc
  pub listening : IsListening loaded.ingress
  pub budgeted : IsBudgeted loaded.resources
  pub of_rpc : lookup "rpc" loaded.value ≡ some (obj loaded.rpc)
  pub of_ingress : lookup "ingress" loaded.value ≡ some (obj loaded.ingress.settings)
  pub of_resources : lookup "resources" loaded.value ≡ some (obj loaded.resources)
  pub network : String
  pub is_testnet : full_match testnet_re network ≡ true
  pub frozen : kit.network network ≡ ok loaded.identity
  pub released : kit.has_network network ≡ true

-- The network of an accepted configuration is in the release, with its identity.
abbrev IsReleased : Kit → Value → Type 0
IsReleased kit identity =
    (network : String) × (full_match testnet_re network ≡ true)
    × (kit.network network ≡ ok identity)
    × (kit.has_network network ≡ true)
