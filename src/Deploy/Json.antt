-- ===== src/Deploy/Json.antt =====
-- `json.dumps` with `sort_keys`, as `write_json` of explorer/usdb_public.py calls it: each dict is
-- written by its keys in their order.
use usdb_explorer.Prelude.{String, if◌then◌else◌}
use usdb_explorer.Python.Value.{
  Value, Fields, Items, field, end, obj, arr, nil, cons, str, bool, int, float, null,
}
use usdb_explorer.Python.Text.{lt_str}

-- The place of a key in a sorted dict.
unfoldable pub insert_field : String → Value → Fields → Fields
insert_field k v end = field k v end
insert_field k v (field j w rest) =
    let more = insert_field k v rest in
    if lt_str j k then field j w more else field k v (field j w rest)

unfoldable mutual
  pub sort_keys : Value → Value
  sort_keys (obj d) = obj (sort_fields d)
  sort_keys (arr items) = arr (sort_items items)
  sort_keys (str s) = str s
  sort_keys (bool b) = bool b
  sort_keys (int n) = int n
  sort_keys (float s) = float s
  sort_keys null = null

  pub sort_fields : Fields → Fields
  sort_fields end = end
  sort_fields (field k v rest) = insert_field k (sort_keys v) (sort_fields rest)

  pub sort_items : Items → Items
  sort_items nil = nil
  sort_items (cons v items) = cons (sort_keys v) (sort_items items)
