-- ===== src/Resources/Tests.antt =====
-- A deployment of two services beside one other container, and the theorem of `Resources` at it.
use usdb_explorer.Prelude.{◌≡◌, refl, ◌*◌, List, [], ◌∷◌, none, some}
use usdb_explorer.Python.Exn.{raise, value_error}
use usdb_explorer.Resources.{
  gib, Limit, text, bytes, Document, Container, Reservation, auto, reserved, memory_bytes,
  require_resources,
}
use usdb_explorer.Resources.Budget.{FitsHost, require_resources-FitsHost}

abbrev document : Document
document = record { name = "usdb"; services = ("backend", text "2g") ∷ ("redis", text "256m") ∷ [] }

abbrev containers : List Container
containers =
    record { project = some "usdb"; service = some "redis"; memory = 268435456 }
    ∷ record { project = some "node"; service = none; memory = 1000 }
    ∷ []

require_resources-FitsHost_example : FitsHost 6 (16 * gib) gib document containers
unfolding require_resources usdb_explorer.Resources.sum_limits memory_bytes
    usdb_explorer.Resources.split_last usdb_explorer.Resources.unit_bytes
    usdb_explorer.Resources.scan usdb_explorer.Resources.is_own usdb_explorer.Resources.own_service
    usdb_explorer.Resources.find_limit usdb_explorer.Python.Text.decimal_value
require_resources-FitsHost_example =
    require_resources-FitsHost 6 auto document (16 * gib) containers {other = gib} refl

small_host :
    require_resources 6 (reserved 1) document (8 * gib) containers
    ≡ raise (
        value_error
          "public service budget plus other services and system reserve exceeds Docker host RAM")
unfolding require_resources usdb_explorer.Resources.sum_limits memory_bytes
    usdb_explorer.Resources.split_last usdb_explorer.Resources.unit_bytes
    usdb_explorer.Resources.scan usdb_explorer.Resources.is_own usdb_explorer.Resources.own_service
    usdb_explorer.Resources.find_limit usdb_explorer.Python.Text.decimal_value
small_host = refl
