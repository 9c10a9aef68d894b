-- ===== src/Notes/Fragment.antt =====
-- The validation of one change fragment: `validate_fragment` and its helpers in
-- scripts/release_notes.py.
pub mod Texts
pub mod Canonical
use mathlib.Core.List.{map}
use usdb_explorer.Prelude.{
  ℕ, zero, suc, ◌+◌, String, ◌<>◌, Bool, true, false, not, ◌&&◌, ◌||◌, Option, none, some, List, [],
  ◌∷◌, length, all, contains, distinct, leb, ltb, ◌==◌, ◌=s◌, if◌then◌else◌,
}
use usdb_explorer.Python.Value.{
  Value, Fields, null, bool, int, float, str, arr, obj, end, field, keys, elements, items_of, equal,
}
use usdb_explorer.Python.Exn.{
  Exn, Result, ok, raise, value_error, ◌>>=◌, ◌>>◌, require, subscript, each,
}
use usdb_explorer.Python.Text.{codes, strip, has_code, starts_with, decimal, lt_str}
use usdb_explorer.Python.Regex.{Regex, class, char, plus, star, then_, full_match}
use usdb_explorer.Python.Order.Sorting.{sort}

-- `set(value) == expected`
unfoldable pub require_exact_keys : Fields → List String → String → Result (Unit {0})
require_exact_keys value expected context =
    require (all (contains expected) (keys value) && all (contains (keys value)) expected)
      (context <> " keys mismatch")

unfoldable pub require_text_of : String → String → ℕ → Result String
require_text_of value context max_length = do
  require ((strip value =s value) && not (value =s ""))
      (context <> " must be trimmed and non-empty")
  require (not (has_code 10 value) && not (has_code 13 value)) (context <> " must be one line")
  require (leb (length (codes value)) max_length)
      (context <> " exceeds " <> decimal max_length <> " characters")
  ok value

unfoldable pub require_text : Value → String → ℕ → Result String
unfolding require_text_of
require_text (str value) context max_length = require_text_of value context max_length
require_text _ context max_length = raise (value_error (context <> " must be a string"))

-- The comprehension over `enumerate(value)`, from an index on.
unfoldable pub require_texts : String → ℕ → ℕ → List Value → Result (List String)
unfolding require_text
require_texts context max_length index [] = ok []
require_texts context max_length index (item ∷ items) = do
  text ← require_text item (context <> "[" <> decimal index <> "]") max_length
  texts ← require_texts context max_length (index + 1) items
  ok (text ∷ texts)

unfoldable pub require_text_array : Value → String → Bool → ℕ → ℕ → Result (List String)
unfolding require_texts
require_text_array (arr items) context allow_empty max_items max_length = do
  let value = elements items
  require (allow_empty || ltb 0 (length value)) (context <> " must not be empty")
  require (leb (length value) max_items) (context <> " exceeds " <> decimal max_items <> " items")
  result ← require_texts context max_length 0 value
  require (distinct result) (context <> " must not contain duplicates")
  ok result
require_text_array _ context allow_empty max_items max_length =
    raise (value_error (context <> " must be an array"))

abbrev pub fragment_schema_version : String
fragment_schema_version = "usdb-change-fragment:v1"

-- In the order of `CHANGE_TYPE_TITLES`.
abbrev pub change_types : List String
change_types =
    "security" ∷ "removed" ∷ "deprecated" ∷ "added" ∷ "changed" ∷ "fixed" ∷ "internal" ∷ []

abbrev pub known_scopes : List String
known_scopes =
    "deployment" ∷ "documentation" ∷ "release" ∷ "security" ∷ "testing" ∷ "gateway" ∷ "explorer"
    ∷ "network" ∷ []

-- Sorted, as the comprehension of the result reads them.
abbrev pub compatibility_keys : List String
compatibility_keys = "config_change" ∷ "data_rebuild" ∷ "network_reset" ∷ "restart_required" ∷ []

abbrev pub fragment_keys : List String
fragment_keys =
    "change_id" ∷ "compatibility" ∷ "details" ∷ "operator_actions" ∷ "references" ∷ "schema_version"
    ∷ "scopes" ∷ "summary" ∷ "type" ∷ []

abbrev lower_digit : Regex
lower_digit = class ((b'a', b'z') ∷ (b'0', b'9') ∷ [])

abbrev pub change_id_re : Regex
change_id_re = then_ (plus lower_digit) (star (then_ (char b'-') (plus lower_digit)))

pub record Compatibility : Type 0 where
  pub config_change : Bool
  pub data_rebuild : Bool
  pub network_reset : Bool
  pub restart_required : Bool

pub record Fragment : Type 0 where
  pub change_id : String
  pub change_type : String
  pub scopes : List String
  pub summary : String
  pub details : List String
  pub operator_actions : List String
  pub compatibility : Compatibility
  pub references : List String

-- `type(enabled) is bool`, for every value of the dict.
unfoldable pub only_booleans : Fields → Bool
only_booleans end = true
only_booleans (field k (bool b) rest) = only_booleans rest
only_booleans (field k _ rest) = false

unfoldable pub require_https : String → ℕ → List String → Result (Unit {0})
require_https source index [] = ok tt
require_https source index (reference ∷ references) = do
  require (starts_with reference "https://")
      (source <> ".references[" <> decimal index <> "] must be an HTTPS URL")
  require_https source (index + 1) references

-- `compatibility[key]` of a checked dict.
abbrev flag : Value → String → Result Bool
flag compatibility key = do
  v ← subscript compatibility key
  elim v [ bool b ↦ ok b | _ ↦ raise (value_error "must be boolean") ]

unfoldable pub validate_compatibility : Value → String → Result Compatibility
validate_compatibility (obj compatibility) source = do
  require_exact_keys compatibility compatibility_keys (source <> ".compatibility")
  require (only_booleans compatibility) (source <> ".compatibility must be boolean")
  config_change ← flag (obj compatibility) "config_change"
  data_rebuild ← flag (obj compatibility) "data_rebuild"
  network_reset ← flag (obj compatibility) "network_reset"
  restart_required ← flag (obj compatibility) "restart_required"
  require (not (network_reset && data_rebuild))
      (source <> ".compatibility.data_rebuild is redundant when network_reset is true")
  ok (record {
    config_change = config_change;
    data_rebuild = data_rebuild;
    network_reset = network_reset;
    restart_required = restart_required;
  })
validate_compatibility _ source = raise (value_error (source <> ".compatibility must be an object"))

-- The keys, the schema, `change_id` and `type`.
unfoldable pub validate_header : Fields → String → Result (String × String)
validate_header value source = do
  require_exact_keys value fragment_keys source
  schema_version ← subscript (obj value) "schema_version"
  require (equal schema_version (str fragment_schema_version))
      (source <> ".schema_version must be " <> fragment_schema_version)
  change_id ← require_text (← subscript (obj value) "change_id") (source <> ".change_id") 96
  require (full_match change_id_re change_id) (source <> ".change_id must be lowercase kebab-case")
  change_type ← require_text (← subscript (obj value) "type") (source <> ".type") 24
  require (contains change_types change_type) (source <> ".type is unsupported")
  ok (change_id, change_type)

-- `scopes` and `summary`.
unfoldable pub validate_scopes : Fields → String → Result (List String × String)
validate_scopes value source = do
  scopes ← require_text_array (← subscript (obj value) "scopes") (source <> ".scopes") false 8 40
  require (all (contains known_scopes) scopes) (source <> ".scopes contains an unsupported scope")
  summary ← require_text (← subscript (obj value) "summary") (source <> ".summary") 160
  ok (scopes, summary)

-- `details` and `operator_actions`.
unfoldable pub validate_details : Fields → String → Result (List String × List String)
validate_details value source = do
  details ←
      require_text_array (← subscript (obj value) "details") (source <> ".details") false 12 1000
  operator_actions ←
      require_text_array (← subscript (obj value) "operator_actions")
        (source <> ".operator_actions") true 8 1000
  ok (details, operator_actions)

unfoldable pub validate_references : Fields → String → Result (List String)
validate_references value source = do
  references ←
      require_text_array (← subscript (obj value) "references") (source <> ".references") true 12
        500
  require_https source 0 references
  ok references

unfoldable pub validate_fragment : Fields → String → Result Fragment
validate_fragment value source = do
  header ← validate_header value source
  scopes ← validate_scopes value source
  details ← validate_details value source
  references ← validate_references value source
  compatibility ← validate_compatibility (← subscript (obj value) "compatibility") source
  ok (record {
    change_id = header.0;
    change_type = header.1;
    scopes = sort lt_str scopes.0;
    summary = scopes.1;
    details = details.0;
    operator_actions = details.1;
    compatibility = compatibility;
    references = sort lt_str references;
  })

abbrev texts : List String → Value
texts xs = arr (items_of (map str xs))

abbrev pub compatibility_value : Compatibility → Value
compatibility_value c = obj (
    field "config_change" (bool c.config_change) (
      field "data_rebuild" (bool c.data_rebuild) (
        field "network_reset" (bool c.network_reset)
          (field "restart_required" (bool c.restart_required) end))))

-- The dict that `validate_fragment` returns, in its order.
abbrev pub fragment_value : Fragment → Fields
fragment_value f = field "schema_version" (str fragment_schema_version) (
    field "change_id" (str f.change_id) (
      field "type" (str f.change_type) (
        field "scopes" (texts f.scopes) (
          field "summary" (str f.summary) (
            field "details" (texts f.details) (
              field "operator_actions" (texts f.operator_actions) (
                field "compatibility" (compatibility_value f.compatibility)
                  (field "references" (texts f.references) end))))))))
