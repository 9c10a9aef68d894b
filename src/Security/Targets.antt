-- ===== src/Security/Targets.antt =====
-- What the loop over the targets of `evaluate` in scripts/image_security.py counts and keeps.
use usdb_explorer.Prelude.{
  ◌≡◌, refl, sym, ap, ap₂, subst, ◌∙◌, ℕ, ◌+◌, String, List, [], ◌∷◌, ◌++◌, Option, none, some,
  length,
}
use usdb_explorer.Python.Value.{Value, Fields, obj, arr, str, lookup, elements}
use usdb_explorer.Python.Exn.{ok, raise, value_error, bind_ok}
use usdb_explorer.Python.Exn.Loops.{ok-injective}
use usdb_explorer.Security.Scan.{
  Unresolved, Tally, filled_text, add_findings, vulnerabilities, add_target, add_targets,
}
use usdb_explorer.Security.Findings.{
  IsBalanced, add_findings-IsBalanced, text_at, filled_text-text_at, entries, severe, count_of,
  Adds, nothing-Adds, both-Adds, add_findings-Adds,
}

-- A target that is accepted is counted as its findings are, from the same tally but for the
-- coverage of the binaries.
add_target-findings :
    (v : Value) (t : Tally) {t' : Tally}
    → add_target v t ≡ ok t'
    → (d : Fields) × (name : String) × (vs : List Value) × (s : Tally) × (v ≡ obj d)
      × (text_at "Target" d ≡ name)
      × (vulnerabilities d ≡ ok vs)
      × (s.counts ≡ t.counts)
      × (s.unresolved ≡ t.unresolved)
      × (add_findings name vs s ≡ ok t')
unfolding add_target
add_target-findings (obj d) t h =
    let (name, at_name, h1) = bind_ok (filled_text d "Target" _) _ h in
    let (kind, _, h2) = bind_ok (filled_text d "Class" _) _ h1 in
    let (type, _, h3) = bind_ok (filled_text d "Type" _) _ h2 in
    let (vs, at_vs, h4) = bind_ok (vulnerabilities d) _ h3 in
    (d, name, vs, _, refl, filled_text-text_at d "Target" _ at_name, at_vs, refl, refl, h4)
add_target-findings _ t h = cc

add_target-IsBalanced :
    (v : Value) (t : Tally) {t' : Tally} → IsBalanced t → add_target v t ≡ ok t' → IsBalanced t'
add_target-IsBalanced v t b h =
    let (d, name, vs, s, _, _, _, counts, unresolved, h1) = add_target-findings v t h in
    add_findings-IsBalanced name vs s
      (ap length unresolved
        ∙ b
        ∙ ap₂ (λ (m n : ℕ). m + n) (ap (λ c. c.high) (sym counts))
            (ap (λ c. c.critical) (sym counts)))
      h1

pub add_targets-IsBalanced :
    (vs : List Value) (t : Tally) {t' : Tally}
    → IsBalanced t
    → add_targets vs t ≡ ok t'
    → IsBalanced t'
unfolding add_targets
add_targets-IsBalanced [] t b h = subst IsBalanced (ok-injective h) b
add_targets-IsBalanced (v ∷ vs) t b h =
    let (s, at_s, h1) = bind_ok (add_target v t) _ h in
    add_targets-IsBalanced vs s (add_target-IsBalanced v t b at_s) h1

-- The entries of a report, target by target, in their order.
abbrev pub findings_at : Fields → List Value
findings_at d = elim (lookup "Vulnerabilities" d) [ some (arr items) ↦ elements items | _ ↦ [] ]

abbrev pub entries_at : Value → List Unresolved
entries_at (obj d) = entries (text_at "Target" d) (findings_at d)
entries_at _ = []

abbrev pub all_entries : List Value → List Unresolved
all_entries [] = []
all_entries (v ∷ vs) = entries_at v ++ all_entries vs

vulnerabilities-findings_at :
    (d : Fields) {vs : List Value} → vulnerabilities d ≡ ok vs → findings_at d ≡ vs
unfolding vulnerabilities
vulnerabilities-findings_at d {vs} h = from (lookup "Vulnerabilities" d) h
  where
    from :
        (o : Option Value)
        → (elim o [
          | none ↦ ok []
          | some (arr items) ↦ ok (elements items)
          | some _ ↦ raise (value_error "malformed vulnerabilities array")
        ])
          ≡ ok vs
        → (elim o [ some (arr items) ↦ elements items | _ ↦ [] ]) ≡ vs
    from none e = ok-injective e
    from (some (arr items)) e = ok-injective e
    from (some (obj x)) e = cc
    from (some (str x)) e = cc
    from (some (Value.bool x)) e = cc
    from (some (Value.int x)) e = cc
    from (some (Value.float x)) e = cc
    from (some Value.null) e = cc

Adds-from :
    (us : List Unresolved) (t s t' : Tally)
    → s.counts ≡ t.counts
    → s.unresolved ≡ t.unresolved
    → Adds us s t'
    → Adds us t t'
Adds-from us t s t' counts unresolved a = record {
  unresolved = a.unresolved ∙ ap (λ ws. ws ++ severe us) unresolved;
  critical = a.critical ∙ ap (λ c. count_of "CRITICAL" us + c.critical) counts;
  high = a.high ∙ ap (λ c. count_of "HIGH" us + c.high) counts;
  low = a.low ∙ ap (λ c. count_of "LOW" us + c.low) counts;
  medium = a.medium ∙ ap (λ c. count_of "MEDIUM" us + c.medium) counts;
  unknown = a.unknown ∙ ap (λ c. count_of "UNKNOWN" us + c.unknown) counts;
}

add_target-Adds :
    (v : Value) (t : Tally) {t' : Tally} → add_target v t ≡ ok t' → Adds (entries_at v) t t'
add_target-Adds v t {t'} h =
    let (d, name, vs, s, is, named, at_vs, counts, unresolved, h1) = add_target-findings v t h in
    subst (λ w. Adds (entries_at w) t t') (sym is)
      (subst (λ us. Adds us t t')
        (ap₂ entries (sym named) (sym (vulnerabilities-findings_at d at_vs)))
        (Adds-from (entries name vs) t s t' counts unresolved (add_findings-Adds name vs s h1)))

pub add_targets-Adds :
    (vs : List Value) (t : Tally) {t' : Tally}
    → add_targets vs t ≡ ok t'
    → Adds (all_entries vs) t t'
unfolding add_targets
add_targets-Adds [] t h = subst (Adds [] t) (ok-injective h) (nothing-Adds t)
add_targets-Adds (v ∷ vs) t {t'} h =
    let (s, at_s, h1) = bind_ok (add_target v t) _ h in
    both-Adds (entries_at v) (all_entries vs) t s t' (add_target-Adds v t at_s)
      (add_targets-Adds vs s h1)
