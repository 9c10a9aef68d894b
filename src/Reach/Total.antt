-- ===== src/Reach/Total.antt =====
-- The report of explorer/ingress_checks.py is always made: the searches and keys that it takes for
-- granted are there.
use usdb_explorer.Prelude.{
  String, ◌≡◌, refl, sym, ap, subst, ◌∙◌, inl, inr, Bool, true, false, if◌then◌else◌, not, ◌&&◌,
  ◌=s◌, List, [], ◌∷◌, Option, none, some, keep, In, All, arith, Bool-cases, some-injective,
}
use usdb_explorer.Prelude.Members.{In-keep, In-append_right, All-In}
use usdb_explorer.Python.Value.{Value}
use usdb_explorer.Python.Exn.{Result, ok, raise, Exn, each}
use usdb_explorer.Python.Exn.Loops.{bind_step}
use usdb_explorer.Config.Ingress.{Host}
use mathlib.Core.List.{map}
use usdb_explorer.Reach.{Target, skip, reach, Discovered, configured, ingress_targets}
use usdb_explorer.Reach.Targets.{ingress_targets-EndsConfigured}
use usdb_explorer.Reach.Honest.{rows_cases}
use usdb_explorer.Reach.Probe.{first_error, start, note, probe_ingress}
use usdb_explorer.Reach.Report.{
  Failure, passed, failed, is_failed, is_skipped, Probe, Row, Upstream, Report, error_document,
  is_caught, plain_row, row_of, probed, run, not_run, is_configured, first_row, failed_rows,
  error_at, error_entry, is_reachable, upstream_text, local_diagnosis, failed_text, all_passed_text,
  failed_diagnosis, named_diagnosis, diagnosis_of, named_error, rows_diagnosis, diagnosis, error_of,
  report_of, check_ingresses,
}

-- What `probe_ingress` does: it raises only what is caught, and a failure comes with its error.
abbrev pub IsAnswer : Result Probe → Type 0
IsAnswer (ok probe) = probe.has_failed ≡ true → (e : Failure) × (probe.error ≡ some e)
IsAnswer (raise e) = is_caught e ≡ true

-- A failed row has an error.
abbrev IsExplained : Row → Type 0
IsExplained row = is_failed row.status ≡ true → (e : Failure) × (row.error ≡ some e)

abbrev name_of : Target → String
name_of (skip name reason) = name
name_of (reach name origin url connect) = name

abbrev is_skip : Target → Bool
is_skip (skip name reason) = true
is_skip (reach name origin url connect) = false

abbrev IsRowOf : Target → Row → Type 0
IsRowOf t row = IsExplained row × (row.name ≡ name_of t) × (is_skipped row.status ≡ is_skip t)

probed_total :
    (name : String) (r : Result Probe)
    → IsAnswer r
    → (row : Row) × (probed name r ≡ ok row)
      × IsExplained row
      × (row.name ≡ name)
      × (is_skipped row.status ≡ false)
unfolding probed row_of
probed_total name (ok probe) a = elim (Bool-cases probe.has_failed) [
  | inl e ↦ (row_of name probe, refl, λ f. a e, refl, rw e refl)
  | inr e ↦ (
    row_of name probe,
    refl,
    (let no : is_failed (if probe.has_failed then failed else passed) ≡ false = rw e refl in
        λ f. cc),
    refl,
    rw e refl,
  )
]
probed_total name (raise x) a = (
  plain_row name failed (some (error_document x)),
  rw a refl,
  λ f. (error_document x, refl),
  refl,
  refl,
)

module _ (probe : Target → Result Probe) (answers : (t : Target) → IsAnswer (probe t)) where
  run_total : (t : Target) → (row : Row) × (run probe t ≡ ok row) × IsRowOf t row
  unfolding run
  run_total (skip name reason) = (_, refl, ((λ f. cc), refl, refl))
  run_total (reach name origin url connect) =
      let (row, at, why, named, shown) =
        probed_total name (probe (reach name origin url connect))
          (answers (reach name origin url connect)) in
      (row, at, (why, named, shown))

  -- All rows, and one for a target.
  rows_total :
      (targets : List Target)
      → (rows : List Row) × (each (run probe) targets ≡ ok rows)
        × All IsExplained rows
        × ((t : Target) → In t targets → (row : Row) × In row rows × IsRowOf t row)
  unfolding each
  rows_total [] = ([], refl, tt, λ t i. elim i [ ])
  rows_total (t ∷ targets) =
      let (row, at, is_row) = run_total t in
      let (rows, loop, why, found) = rows_total targets in
      (
        row ∷ rows,
        rw (at, loop) refl,
        (is_row.0, why),
        λ other i. elim i [
          | inl e ↦ (row, inl refl, subst (λ x. IsRowOf x row) (sym e) is_row)
          | inr j ↦ let (r, place, is_r) = found other j in (r, inr place, is_r)
        ],
      )

first_row_total :
    (test : Row → Bool) (rows : List Row) (row : Row)
    → In row rows
    → test row ≡ true
    → (r : Row) × (first_row test rows ≡ some r)
unfolding first_row
first_row_total test [] row i h = elim i [ ]
first_row_total test (x ∷ rows) row i h = elim (Bool-cases (test x)) [
  | inl e ↦ (x, rw e refl)
  | inr e ↦ elim i [
    | inl same ↦ cc (ap test same)
    | inr j ↦ let (r, at) = first_row_total test rows row j h in (r, rw e at)
  ]
]

first_row-In :
    (test : Row → Bool) (rows : List Row) {r : Row} → first_row test rows ≡ some r → In r rows
unfolding first_row
first_row-In test [] h = cc
first_row-In test (x ∷ rows) {r} h = elim (Bool-cases (test x)) [
  | inl e ↦ inl (sym (some-injective (rw e at h)))
  | inr e ↦ inr (first_row-In test rows (rw e at h))
]

In-kept :
    (test : Row → Bool) (rows : List Row) (row : Row)
    → In row (keep test rows)
    → In row rows × (test row ≡ true)
In-kept test [] row i = elim i [ ]
In-kept test (x ∷ rows) row i = elim (Bool-cases (test x)) [
  | inl e ↦ elim (subst (λ b. In row (if b then x ∷ keep test rows else keep test rows)) e i) [
    | inl same ↦ (inl same, subst (λ r. test r ≡ true) (sym same) e)
    | inr j ↦ let (place, good) = In-kept test rows row j in (inr place, good)
  ]
  | inr e ↦
      let (place, good) =
        In-kept test rows row
          (subst (λ b. In row (if b then x ∷ keep test rows else keep test rows)) e i) in
      (inr place, good)
]

named_error_total :
    (first : Failure) (o : Option Row)
    → ((c : Row) → o ≡ some c → (e : Failure) × (c.error ≡ some e))
    → (found : Option Failure) × (named_error first o ≡ ok found)
unfolding named_error
named_error_total first none why = (some first, refl)
named_error_total first (some c) why =
    let (e, at) = why c refl in (some e, bind_step (error_at c) _ (ap error_entry at))

error_of_total :
    (failures : List Row)
    → ((row : Row) → In row failures → (e : Failure) × (row.error ≡ some e))
    → (found : Option Failure) × (error_of failures ≡ ok found)
unfolding error_of
error_of_total [] why = (none, refl)
error_of_total (bad ∷ more) why =
    let (e, at) = why bad (inl refl) in
    let (found, named) =
      named_error_total e (first_row is_configured (bad ∷ more))
        (λ c is. why c (first_row-In is_configured (bad ∷ more) is)) in
    (found, bind_step (error_at bad) _ (ap error_entry at) ∙ named)

local_diagnosis_total : (e : Failure) → (text : String) × (local_diagnosis e ≡ ok text)
unfolding local_diagnosis
local_diagnosis_total e = (_, refl)

left_true : (a b : Bool) → (a && b) ≡ true → a ≡ true
left_true a b h = ground arith

failed_diagnosis_total :
    (rows : List Row) (c : Row)
    → IsExplained c
    → (text : String) × (failed_diagnosis rows c ≡ ok text)
unfolding failed_diagnosis
failed_diagnosis_total rows c why = elim (Bool-cases (is_failed c.status && is_reachable rows)) [
  | inl e ↦
      let (f, at) = why (left_true _ _ e) in
      let (text, said) = local_diagnosis_total f in
      (text, rw e (bind_step (error_at c) _ (ap error_entry at) ∙ said))
  | inr e ↦ (failed_text c.status, rw e refl)
]

rows_diagnosis_total :
    (rows : List Row) (c : Row)
    → In c rows
    → is_configured c ≡ true
    → ((row : Row) → In row rows → IsExplained row)
    → (text : String) × (rows_diagnosis rows ≡ ok text)
unfolding rows_diagnosis diagnosis_of named_diagnosis
rows_diagnosis_total rows c i named why = elim (rows_cases rows) [
  | inl (none_failed, good) ↦ (all_passed_text, rw none_failed refl)
  | inr (bad, more, first, place, fails) ↦
      let (r, at) = first_row_total is_configured rows c i named in
      let (text, said) =
        failed_diagnosis_total rows r (why r (first_row-In is_configured rows at)) in
      (text, rw (first, at) said)
]

module _ (probe : Target → Result Probe) (answers : (t : Target) → IsAnswer (probe t)) where
  report_of_total :
      (targets : List Target) (warnings : List String) (upstream : Result Upstream)
      (origin : String)
      → In (configured origin) targets
      → ((e : Exn) → upstream ≡ raise e → is_caught e ≡ true)
      → (report : Report) × (report_of probe targets warnings upstream ≡ ok report)
  unfolding report_of diagnosis configured
  report_of_total targets warnings (ok upstream) origin i caught =
      let (rows, loop, why, found) = rows_total probe answers targets in
      let (row, place, is_row) = found (configured origin) i in
      let (error, at_error) = error_of_total (failed_rows rows) (λ r j.
        let (inside, bad) = In-kept (λ x. is_failed x.status) rows r j in
        All-In IsExplained rows why inside bad) in
      let kept = keep (λ r. not (is_skipped r.status)) rows in
      let (text, said) =
        rows_diagnosis_total kept row
          (In-keep row (λ x. not (is_skipped x.status)) rows place (ap not is_row.2))
          (subst (λ n. (n =s "configured") ≡ true) (sym is_row.1) refl)
          (λ r j.
            All-In IsExplained rows why (In-kept (λ x. not (is_skipped x.status)) rows r j).0) in
      (
        _,
        bind_step (each (run probe) targets) _ loop
            ∙ (bind_step (error_of (failed_rows rows)) _ at_error
                ∙ bind_step (diagnosis false rows) _ said),
      )
  report_of_total targets warnings (raise e) origin i caught =
      let seen = caught e refl in
      (
        record {
          upstream_failed = true;
          rows = map not_run targets;
          status = "CHECK_FAILED";
          error = some (error_document e);
          warnings = warnings;
          diagnosis = upstream_text;
        },
        rw seen refl,
      )

-- The operation raises nothing but what is caught.
abbrev pub IsContained : Result (Unit {0}) → Type 0
IsContained (ok u) = Unit
IsContained (raise e) = is_caught e ≡ true

-- What the operations so far have noted.
abbrev IsNoted : Probe → Type 0
IsNoted p = p.has_failed ≡ true → (e : Failure) × (p.error ≡ some e)

first_error_is : (o : Option Failure) (f : Failure) → (e : Failure) × (first_error o f ≡ some e)
first_error_is none f = (f, refl)
first_error_is (some e) f = (e, refl)

note_total :
    (r : Result (Unit {0})) (mark : Probe → Probe) (p : Probe)
    → IsContained r
    → (IsNoted p → IsNoted (mark p))
    → IsNoted p
    → (q : Probe) × (note r mark p ≡ ok q) × IsNoted q
unfolding note
note_total (ok u) mark p c m n = (mark p, refl, m n)
note_total (raise e) mark p c m n = (
  record p { has_failed = true; error = first_error p.error (error_document e) },
  rw c refl,
  λ h. first_error_is p.error (error_document e),
)

-- A probe whose operations raise nothing else gives an error with its failure.
probe_ingress-IsAnswer :
    (rpc api canonical : Result (Unit {0}))
    → IsContained rpc
    → IsContained api
    → IsContained canonical
    → IsAnswer (probe_ingress rpc api canonical)
unfolding probe_ingress
probe_ingress-IsAnswer rpc api canonical r a c =
    let (asked, at_asked, n1) =
      note_total rpc (λ p. record p { rpc_passed = true }) start r (λ n. n) (λ h. cc) in
    let (listed, at_listed, n2) =
      note_total api (λ p. record p { api_passed = true }) asked a (λ n. n) n1 in
    let (last, at_last, n3) = note_total canonical (λ p. p) listed c (λ n. n) n2 in
    let steps =
      bind_step (note rpc _ start) _ at_asked ∙ bind_step (note api _ asked) _ at_listed in
    elim (Bool-cases listed.has_failed) [
      | inl e ↦ subst IsAnswer (sym (steps ∙ ended listed e)) n2
      | inr e ↦ subst IsAnswer (sym (steps ∙ (going listed e ∙ at_last))) n3
    ]
  where
    ended :
        (p : Probe)
        → p.has_failed ≡ true
        → (if p.has_failed then ok p else note canonical (λ q. q) p) ≡ ok p
    ended p e = ground (arith, e)

    going :
        (p : Probe)
        → p.has_failed ≡ false
        → (if p.has_failed then ok p else note canonical (λ q. q) p) ≡ note canonical (λ q. q) p
    going p e = ground (arith, e)

-- A configuration with targets comes to a report, where the operations of the probes and the
-- upstream raise only what is caught.
pub check_ingresses_total :
    (h : Host) (discovered discovered_ipv6 : Discovered) (config : Value)
    (rpc api canonical : Target → Result (Unit {0})) (upstream : Result Upstream)
    {targets : List Target} {warnings : List String}
    → ingress_targets h discovered discovered_ipv6 config ≡ ok (targets, warnings)
    → ((t : Target) → IsContained (rpc t) × IsContained (api t) × IsContained (canonical t))
    → ((e : Exn) → upstream ≡ raise e → is_caught e ≡ true)
    → (report : Report) × (check_ingresses
          (ingress_targets h discovered discovered_ipv6 config)
          upstream
          (λ t. probe_ingress (rpc t) (api t) (canonical t))
        ≡ ok report)
unfolding check_ingresses
check_ingresses_total h discovered discovered_ipv6 config rpc api canonical upstream {targets}
      {warnings} found contained caught =
    let (before, origin, ends) =
      ingress_targets-EndsConfigured h discovered discovered_ipv6 config found in
    let place =
      subst (In (configured origin)) (sym ends)
        (In-append_right (configured origin) before (configured origin ∷ []) (inl refl)) in
    let (report, made) =
      report_of_total (λ t. probe_ingress (rpc t) (api t) (canonical t))
        (λ t.
          let (r, a, c) = contained t in probe_ingress-IsAnswer (rpc t) (api t) (canonical t) r a c)
        targets warnings upstream origin place caught in
    (report, bind_step (ingress_targets h discovered discovered_ipv6 config) _ found ∙ made)
