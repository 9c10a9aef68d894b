-- ===== src/Rpc/Read.antt =====
-- `ReadRpc` and `named_rpc` of explorer/public_checks.py.
use usdb_explorer.Prelude.{
  String, ◌<>◌, Bool, false, if◌then◌else◌, not, ◌&&◌, ◌||◌, ◌=s◌, List, [], ◌∷◌, Option, none,
  some, contains,
}
use usdb_explorer.Prelude.Int.{ℤ, pos, negsuc, leb_ℤ, ltb_ℤ, eqb_ℤ}
use usdb_explorer.Python.Value.{
  Value, Fields, field, end, obj, arr, str, int, nat, lookup, has, elements, items_of,
}
use usdb_explorer.Python.Exn.{Result, ok, raise, Exn, rpc_failure}
use usdb_explorer.Rpc.Calls.{Io, ◌>>=◌, ◌>>◌, lift, check, attempt}
use usdb_explorer.Rpc.Failure.{read_methods, rpc_operation, failure_of}

abbrev invalid : String → Exn
invalid operation = rpc_failure "RPC_INVALID_RESPONSE" (operation <> ": invalid JSON-RPC envelope")

abbrev malformed : String → Exn
malformed operation = rpc_failure "RPC_INVALID_RESPONSE" (operation <> ": malformed JSON-RPC error")

-- An envelope of version 2.0 with the id 1, and with one of `error` and `result`.
abbrev pub is_envelope : Fields → Bool
is_envelope reply =
    (elim (lookup "jsonrpc" reply) [ some (str s) ↦ s =s "2.0" | _ ↦ false ])
    && (elim (lookup "id" reply) [ some (int n) ↦ eqb_ℤ n (pos 1) | _ ↦ false ])
    && ((has "error" reply && not (has "result" reply))
        || (has "result" reply && not (has "error" reply)))

-- `-(2**31) <= code < 2**31`
abbrev is_code : ℤ → Bool
is_code n = leb_ℤ (negsuc 2147483647) n && ltb_ℤ n (pos 2147483648)

-- The exception for the `error` of an envelope.
unfoldable pub error_of : String → List Value → Value → Exn
error_of method params (obj error) = elim (lookup "code" error) [
  | some (int code) ↦ elim (lookup "message" error) [
    | some (str message) ↦
        if is_code code
        then failure_of method params (some code) message
        else malformed (rpc_operation method params)
    | _ ↦ malformed (rpc_operation method params)
  ]
  | _ ↦ malformed (rpc_operation method params)
]
error_of method params _ = malformed (rpc_operation method params)

-- `item["error"]` of a trace that failed.
abbrev pub trace_error : Value → Option String
trace_error (obj item) = elim (lookup "error" item) [
  | some (str message) ↦ if message =s "" then none else some message
  | _ ↦ none
]
trace_error _ = none

-- The first failed trace of a block.
unfoldable pub first_error : List Value → Option String
first_error [] = none
first_error (item ∷ items) =
    let later = first_error items in
    elim (trace_error item) [ none ↦ later | some message ↦ some message ]

abbrev pub traces_of : String → Value → List Value
traces_of method (arr items) = if method =s "debug_traceBlockByNumber" then elements items else []
traces_of method _ = []

-- What an envelope without an error gives.
unfoldable pub result_of : String → List Value → Value → Result Value
result_of method params result = elim (first_error (traces_of method result)) [
  | none ↦ ok result
  | some message ↦ raise (failure_of method params none message)
]

unfoldable pub read_reply : String → List Value → Value → Result Value
read_reply method params (obj reply) =
    if not (is_envelope reply)
    then raise (invalid (rpc_operation method params))
    else elim (lookup "error" reply) [
      | some error ↦ raise (error_of method params error)
      | none ↦ elim (lookup "result" reply) [
        | some result ↦ result_of method params result
        | none ↦ raise (invalid (rpc_operation method params))
      ]
    ]
read_reply method params _ = raise (invalid (rpc_operation method params))

abbrev pub payload : String → List Value → Value
payload method params = obj (
    field "jsonrpc" (str "2.0") (
      field "id" (nat 1)
        (field "method" (str method) (field "params" (arr (items_of params)) end))))

-- A failure of the transport names the operation.
abbrev name_failure : String → Exn → Exn
name_failure operation (rpc_failure category detail) =
    rpc_failure category (operation <> ": " <> detail)
name_failure operation e = e

abbrev pub named : {A : Type 0} → String → Result A → Result A
named operation (ok a) = ok a
named operation (raise e) = raise (name_failure operation e)

-- A client: a method with its parameters.
abbrev pub Client : Type 0 → Type 0
Client W = String → List Value → Io W Value

module _ {W : Type 0} where
  -- `ReadRpc(url)(method, params)`, whose transport is `fetch url`.
  unfoldable pub read_rpc : (Value → Io W Value) → Client W
  read_rpc fetch method params = do
    check (contains read_methods method) "acceptance refuses non-read-only RPC methods"
    reply ← attempt (fetch (payload method params))
    value ← lift (named (rpc_operation method params) reply)
    lift (read_reply method params value)

  -- `named_rpc(client, name)`
  unfoldable pub named_rpc : Client W → String → Client W
  named_rpc client name method params = do
    reply ← attempt (client method params)
    lift (named name reply)
