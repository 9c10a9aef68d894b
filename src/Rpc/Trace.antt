-- ===== src/Rpc/Trace.antt =====
-- The probes and the samples of tracing in explorer/public_checks.py: `pending_trace_sample`, and
-- the checks of `preflight` on a mined transaction.
use usdb_explorer.Prelude.{
  ℕ, String, Bool, false, if◌then◌else◌, not, ◌&&◌, ◌||◌, ◌=s◌, ◌==◌, leb, [], ◌∷◌, Option, none,
  some, all, any, length,
}
use usdb_explorer.Python.Value.{
  Value, Fields, field, end, obj, arr, nil, str, null, lookup, elements, equal, truthy,
}
use usdb_explorer.Python.Exn.{Result, ok, raise, Exn, value_error, rpc_failure}
use usdb_explorer.Python.Text.{lower}
use usdb_explorer.Rpc.Calls.{Io, ◌>>=◌, ◌>>◌, pure, lift, check, attempt}
use usdb_explorer.Rpc.Failure.{missing_transaction}
use usdb_explorer.Rpc.Read.{Client}
use usdb_explorer.Rpc.Chain.{quantity, Block, block, same_checkpoint}

abbrev tracer : Value
tracer = obj (field "tracer" (str "callTracer") (field "timeout" (str "5s") end))

abbrev is_unavailable : Exn → Bool
is_unavailable (rpc_failure category detail) = category =s "TRACE_SAMPLE_UNAVAILABLE"
is_unavailable _ = false

-- The probe of an absent transaction has to be refused, and for that reason.
abbrev absent_reply : Result Value → Result (Unit {0})
absent_reply (ok v) = raise (
    rpc_failure "RPC_INVALID_RESPONSE"
      "trace_url: RPC debug_traceTransaction: expected an absent-transaction error")
absent_reply (raise e) = if is_unavailable e then ok tt else raise e

-- The traces of the head: genesis may be refused, and any other block without transactions is empty.
abbrev head_reply : ℕ → Result Value → Result (Unit {0})
head_reply number (ok v) =
    if (number == 0) || not (equal v (arr nil))
    then raise (
        rpc_failure "RPC_INVALID_RESPONSE"
          "trace_url: RPC debug_traceBlockByNumber: unexpected empty-chain probe result")
    else ok tt
head_reply number (raise e) = if (number == 0) && is_unavailable e then ok tt else raise e

abbrev is_filled_text : Option Value → Bool
is_filled_text (some (str s)) = not (s =s "")
is_filled_text _ = false

-- `isinstance(v, dict)` with a text that is not empty as its type.
abbrev pub is_call_trace : Value → Bool
is_call_trace (obj d) = is_filled_text (lookup "type" d)
is_call_trace _ = false

-- An entry of a traced block: no error, and a trace as its result.
abbrev pub is_block_trace : Value → Bool
is_block_trace (obj d) =
    not (elim (lookup "error" d) [ none ↦ false | some e ↦ truthy e ])
    && (elim (lookup "result" d) [ none ↦ false | some v ↦ is_call_trace v ])
is_block_trace _ = false

abbrev pub is_traced_block : ℕ → Value → Bool
is_traced_block count (arr items) =
    (length (elements items) == count) && all is_block_trace (elements items)
is_traced_block count _ = false

-- `d.get(key)` of a receipt.
abbrev entry : String → Fields → Value
entry key d = elim (lookup key d) [ none ↦ null | some v ↦ v ]

-- `str(v).lower() == s.lower()`, which holds for no other value if `s` is a hash.
abbrev pub same_text : Value → String → Bool
same_text (str s) t = lower s =s lower t
same_text _ t = false

abbrev as_receipt : Value → String → Result Fields
as_receipt (obj d) transaction =
    if same_text (entry "transactionHash" d) transaction
    then ok d
    else raise (value_error "sample receipt is unavailable")
as_receipt _ transaction = raise (value_error "sample receipt is unavailable")

module _ {W : Type 0} where
  unfoldable pub pending_trace_sample : Client W → Block → Io W (Unit {0})
  pending_trace_sample trace head = do
    absent ← attempt (trace "debug_traceTransaction" (str missing_transaction ∷ tracer ∷ []))
    lift (absent_reply absent)
    traces ← attempt (trace "debug_traceBlockByNumber" (head.number_text ∷ tracer ∷ []))
    lift (head_reply head.number traces)

  -- The receipt of the sample, its block, and that the block is canonical at the head.
  unfoldable pub sample_block : Client W → Block → String → Io W Block
  sample_block read head transaction = do
    reply ← read "eth_getTransactionReceipt" (str transaction ∷ [])
    receipt ← lift (as_receipt reply transaction)
    b ← block read (entry "blockNumber" receipt)
    check
        (same_text (entry "blockHash" receipt) b.hash
          && any (λ h. same_text h transaction) b.transactions
          && leb b.number head.number)
        "sample transaction is not canonical at the checkpoint"
    lift (quantity (entry "gasUsed" receipt))
    status ← lift (quantity (entry "status" receipt))
    check ((status == 0) || (status == 1)) "sample receipt status is invalid"
    pure b

  abbrev bad_trace : Io W (Unit {0})
  bad_trace =
      lift (raise (rpc_failure "RPC_INVALID_RESPONSE" "trace_url: invalid callTracer result"))

  -- The transaction and its block are traced.
  unfoldable pub trace_sample : Client W → Block → String → Io W (Unit {0})
  trace_sample trace sample transaction = do
    same_checkpoint sample trace
    result ← trace "debug_traceTransaction" (str transaction ∷ tracer ∷ [])
    if is_call_trace result then pure tt else bad_trace
    traces ← trace "debug_traceBlockByNumber" (sample.number_text ∷ tracer ∷ [])
    if is_traced_block (length sample.transactions) traces then pure tt else bad_trace
