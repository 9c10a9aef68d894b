-- ===== src/Resources.antt =====
-- explorer/usdb_public.py: `memory_bytes` and `require_resources`, on the decoded output of Docker.
use Prim.Native.Char.{code}
use usdb_explorer.Prelude.{
  ℕ, zero, suc, ◌+◌, ◌-◌, ◌*◌, ◌/◌, ◌^◌, max, String, Bool, true, false, if◌then◌else◌, not, ◌&&◌,
  ◌||◌, ◌=s◌, ◌==◌, ltb, leb, List, [], ◌∷◌, Option, none, some, contains,
}
use usdb_explorer.Python.Exn.{
  Result, ok, raise, Exn, value_error, key_error, ◌>>=◌, ◌>>◌, require, refuse,
}
use usdb_explorer.Python.Text.{isdigit, decimal_value}
pub mod Budget
mod Tests

abbrev pub gib : ℕ
gib = 1024 ^ 3

-- A limit of a service: bytes, or a text such as `768m`.
pub data Limit : Type 0 where
  bytes : ℕ → Limit
  text : String → Limit

-- `value[:-1]`, behind `before`, and the last character.
unfoldable pub split_last : String → Option (String × ℕ)
split_last String.[] = none
split_last (String.◌∷◌ c s) = elim (split_last s) [
  | none ↦ some ("", code c)
  | some (before, last) ↦ some (String.◌∷◌ c before, last)
]

-- `{"g": GIB, "m": 1024**2}[unit]`
unfoldable pub unit_bytes : ℕ → Result ℕ
unit_bytes unit =
    if unit == b'g'
    then ok gib
    else if unit == b'm'
    then ok (1024 ^ 2)
    else raise (key_error "unit")

unfoldable pub memory_bytes : Limit → Result ℕ
memory_bytes (bytes n) = ok n
memory_bytes (text s) = elim (split_last s) [
  | none ↦ raise (value_error "invalid literal for int()")
  | some (digits, unit) ↦
      if not (isdigit digits)
      then raise (value_error "invalid literal for int()")
      else do size ← unit_bytes unit; ok (decimal_value 0 digits * size)
]

-- The name of the project, and the limit of each service.
pub record Document : Type 0 where
  pub name : String
  pub services : List (String × Limit)

-- A running container: its project and its service by its labels, and its cap, where 0 is none.
pub record Container : Type 0 where
  pub project : Option String
  pub service : Option String
  pub memory : ℕ

pub data Reservation : Type 0 where
  auto : Reservation
  reserved : ℕ → Reservation

unfoldable pub sum_limits : List (String × Limit) → Result ℕ
sum_limits [] = ok 0
sum_limits ((name, limit) ∷ services) = do
  n ← memory_bytes limit
  rest ← sum_limits services
  ok (n + rest)

unfoldable pub find_limit : String → List (String × Limit) → Option Limit
find_limit service [] = none
find_limit service ((name, limit) ∷ services) =
    let later = find_limit service services in if name =s service then some limit else later

unfoldable pub is_own : Document → Container → Bool
is_own document container = elim container.project [ none ↦ false | some p ↦ p =s document.name ]

abbrev stale : String
stale = "public containers have stale or unbudgeted limits; run down before up"

-- The service of a container of this project: known, not seen before, with its limit.
unfoldable pub own_service : Document → List String → Container → Result String
own_service document seen container = elim container.service [
  | none ↦ raise (value_error stale)
  | some service ↦
      if contains seen service
      then raise (value_error stale)
      else elim (find_limit service document.services) [
        | none ↦ raise (value_error stale)
        | some limit ↦ do n ← memory_bytes limit; require (container.memory == n) stale; ok service
      ]
]

-- The sum of the caps of the other containers.
unfoldable pub scan : Document → List Container → ℕ → List String → Result ℕ
scan document [] other_limits seen = ok other_limits
scan document (container ∷ more) other_limits seen = elim (is_own document container) [
  | true ↦ do
    service ← own_service document seen container
    scan document more other_limits (service ∷ seen)
  | false ↦ do
    refuse (container.memory == 0) "another running container has no memory cap"
    scan document more (other_limits + container.memory) seen
]

abbrev pub reserve_of : Reservation → ℕ → ℕ
reserve_of auto other_limits = ((other_limits + gib - 1) / gib) * gib
reserve_of (reserved n) other_limits = n * gib

-- The part of the host that stays with the system.
abbrev pub system_reserve : ℕ → ℕ
system_reserve host = if leb (2 * gib) (host / 10) then host / 10 else 2 * gib

-- The reservation for the other services, which `auto` prints.
unfoldable pub require_resources : ℕ → Reservation → Document → ℕ → List Container → Result ℕ
require_resources budget_gib reservation document host containers = do
  limits ← sum_limits document.services
  other_limits ← scan document containers 0 []
  let budget = budget_gib * gib
  let other = reserve_of reservation other_limits
  refuse (ltb budget limits || ltb host (budget + other + system_reserve host))
      "public service budget plus other services and system reserve exceeds Docker host RAM"
  refuse (ltb other other_limits) "other_services_memory_gib is below existing container limits"
  ok other
