-- ===== src/Rpc/Errors.antt =====
-- What a classified error and an accepted reply of explorer/public_checks.py say.
use usdb_explorer.Prelude.{
  ◌≡◌, refl, sym, subst, ◌∙◌, ◌⊎◌, inl, inr, String, Bool, true, false, ◌&&◌, ◌||◌, ◌=s◌,
  if◌then◌else◌, List, In, Option, none, some, arith, eq_iff, contains, Bool-cases,
}
use usdb_explorer.Prelude.Int.{ℤ, pos, negsuc}
use usdb_explorer.Python.Value.{Value, Fields, Items, obj, arr, str, int, lookup, elements}
use usdb_explorer.Python.Text.{starts_with, occurs}
use usdb_explorer.Rpc.Failure.{
  classify_error, classify_other, mentions, denied, pruned, timed_out, state_methods, code_is,
  is_probe, first_is, missing_transaction, trace_methods,
}

-- The error is that of a probe: the traces of genesis, or those of the absent transaction.
abbrev pub IsProbe : String → List Value → Option ℤ → Type 0
IsProbe method params code =
    (code_is code (negsuc 31999) ≡ true)
    × (((method ≡ "debug_traceBlockByNumber") × (first_is params "0x0" ≡ true))
        ⊎ ((method ≡ "debug_traceTransaction") × (first_is params missing_transaction ≡ true)))

one_method :
    (method : String)
    → method =s "debug_traceBlockByNumber" ≡ true
    → method =s "debug_traceTransaction" ≡ false
one_method method h =
    subst (λ m. m =s "debug_traceTransaction" ≡ false)
      (sym ((eq_iff method "debug_traceBlockByNumber").0 h)) refl

probe_cases :
    (method : String) (params : List Value) (text : String)
    → is_probe method params text ≡ true
    → ((method ≡ "debug_traceBlockByNumber") × (first_is params "0x0" ≡ true))
      ⊎ ((method ≡ "debug_traceTransaction") × (first_is params missing_transaction ≡ true))
probe_cases method params text h = elim (Bool-cases (method =s "debug_traceBlockByNumber")) [
  | inl genesis ↦ inl (
    (eq_iff method "debug_traceBlockByNumber").0 genesis,
    ground (arith, one_method method genesis),
  )
  | inr other ↦ inr ((eq_iff method "debug_traceTransaction").0 (ground arith), ground arith)
]

abbrev IsOther : String × String → Type 0
IsOther c = c.0 =s "TRACE_SAMPLE_UNAVAILABLE" ≡ false

either_way :
    (b : Bool) (x y : String × String) → IsOther x → IsOther y → IsOther (if b then x else y)
either_way true x y p q = p
either_way false x y p q = q

classify_other-IsOther :
    (method : String) (code : Option ℤ) (text : String) → IsOther (classify_other method code text)
unfolding classify_other
classify_other-IsOther method code text =
    either_way (code_is code (pos 3) || starts_with text "execution reverted") _ _ refl (
      either_way (mentions denied text) _ _ refl (
        either_way (code_is code (negsuc 32600)) _ _
          (either_way (contains trace_methods method) _ _ refl refl)
          (either_way
            ((contains state_methods method || contains trace_methods method)
              && mentions pruned text)
            _ _ refl
            (either_way (mentions timed_out text) _ _
              (either_way (contains trace_methods method) _ _ refl refl)
              (either_way (contains trace_methods method && occurs "tracer not found" text) _ _ refl
                refl)))))

not_probe :
    (method : String) (params : List Value) (code : Option ℤ) (text : String)
    → code_is code (negsuc 31999) && is_probe method params text ≡ false
    → (classify_error method params code text).0 ≡ "TRACE_SAMPLE_UNAVAILABLE"
    → (classify_other method code text).0 ≡ "TRACE_SAMPLE_UNAVAILABLE"
unfolding classify_error
not_probe method params code text other h =
    subst
      (λ b.
        (if b
          then ("TRACE_SAMPLE_UNAVAILABLE", "tracing method responded")
          else classify_other method code text).0
        ≡ "TRACE_SAMPLE_UNAVAILABLE")
      other h

differ : true ≡ false → ⊥
differ h = cc

-- An error counts as a missing sample only on a probe, never on a transaction that was mined.
pub classify_error-IsProbe :
    (method : String) (params : List Value) (code : Option ℤ) (text : String)
    → (classify_error method params code text).0 ≡ "TRACE_SAMPLE_UNAVAILABLE"
    → IsProbe method params code
unfolding classify_error
classify_error-IsProbe method params code text h =
    elim (Bool-cases (code_is code (negsuc 31999) && is_probe method params text)) [
      | inl probe ↦ (ground arith, probe_cases method params text (ground arith))
      | inr other ↦ absurd (
          differ (
            sym (
              (eq_iff (classify_other method code text).0 "TRACE_SAMPLE_UNAVAILABLE").1
                (not_probe method params code text other h))
            ∙ classify_other-IsOther method code text))
    ]

-- What an accepted reply is: an envelope of version 2.0 with the id 1, with that result and no error,
-- and if it traces a block, without an item that failed.
pub record IsReply (method : String) (reply : Fields) (v : Value) : Type 0 where
  pub version : lookup "jsonrpc" reply ≡ some (str "2.0")
  pub id : lookup "id" reply ≡ some (int (pos 1))
  pub no_error : lookup "error" reply ≡ none
  pub result : lookup "result" reply ≡ some v
  pub no_failed_trace :
      method ≡ "debug_traceBlockByNumber"
      → (items : Items) (item : Fields) (message : String) → v ≡ arr items
      → In (obj item) (elements items)
      → lookup "error" item ≡ some (str message)
      → message ≡ ""
