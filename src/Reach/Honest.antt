-- ===== src/Reach/Honest.antt =====
-- What the report of explorer/ingress_checks.py says of the paths that were checked.
use usdb_explorer.Prelude.{
  if◌then◌else◌, String, ◌≡◌, refl, sym, subst, ◌∙◌, inl, inr, ◌⊎◌, Bool, true, false, not, ◌&&◌,
  ◌=s◌, List, [], ◌∷◌, Option, none, some, keep, contains, In, Bool-cases, eq_iff,
}
use usdb_explorer.Prelude.Members.{In-keep}
use usdb_explorer.Python.Exn.{Result, ok, raise, each, bind_ok}
use usdb_explorer.Python.Exn.Loops.{ok-injective, if_ok}
use usdb_explorer.Reach.{Target, skip, reach}
use mathlib.Core.List.{map}
use usdb_explorer.Reach.Report.{
  Failure, Status, passed, failed, skipped, is_failed, is_skipped, Probe, Row, Upstream, Report,
  error_document, row_of, probed, not_run, is_caught, run, is_configured, first_row, failed_rows,
  error_at, is_reachable, all_passed_text, transport_categories, local_diagnosis, failed_text,
  failed_diagnosis, named_diagnosis, diagnosis_of, rows_diagnosis, diagnosis, status_of, error_of,
  report_of, check_ingresses,
}

-- What a row says of a probe that was made.
abbrev pub ShowsProbe : Result Probe → Row → Type 0
ShowsProbe (ok p) row =
    (is_failed row.status ≡ p.has_failed) × (is_skipped row.status ≡ false) × (row.error ≡ p.error)
ShowsProbe (raise e) row = (row.status ≡ failed) × (row.error ≡ some (error_document e))

abbrev pub Shows : (Target → Result Probe) → Target → Row → Type 0
Shows probe (skip name reason) row = (row.name ≡ name) × (row.status ≡ skipped)
Shows probe (reach name origin url connect) row =
    (row.name ≡ name) × ShowsProbe (probe (reach name origin url connect)) row

-- A row for each target, in their order, that shows what its probe came to.
abbrev pub AreShown : (Target → Result Probe) → List Target → List Row → Type 0
AreShown probe [] [] = Unit
AreShown probe (t ∷ targets) (row ∷ rows) = Shows probe t row × AreShown probe targets rows
AreShown probe _ _ = ⊥

abbrev pub name_of : Target → String
name_of (skip name reason) = name
name_of (reach name origin url connect) = name

-- A row for each target that says that it was not checked.
abbrev pub AreSkipped : List Target → List Row → Type 0
AreSkipped [] [] = Unit
AreSkipped (t ∷ targets) (row ∷ rows) =
    (row.name ≡ name_of t) × (row.status ≡ skipped) × AreSkipped targets rows
AreSkipped _ _ = ⊥

-- Behind an accepted upstream every target is probed, and the check is complete only with a
-- transaction sample. Behind one that failed none is, and its error is the report's.
abbrev pub Reports : (Target → Result Probe) → List Target → Result Upstream → Report → Type 0
Reports probe targets (ok u) report =
    (report.upstream_failed ≡ false)
    × AreShown probe targets report.rows
    × (report.status ≡ "CHECKED" → u.pending ≡ false)
Reports probe targets (raise e) report =
    (report.upstream_failed ≡ true)
    × (report.error ≡ some (error_document e))
    × AreSkipped targets report.rows

-- A report shows what the upstream and the probes came to. It says that the check failed exactly if something failed, and that all paths passed only
-- if none failed.
pub record IsHonest (probe : Target → Result Probe) (targets : List Target)
    (upstream : Result Upstream) (report : Report) : Type 0 where
  pub reports : Reports probe targets upstream report
  pub row_fails :
      (row : Row)
      → In row report.rows
      → is_failed row.status ≡ true
      → report.status ≡ "CHECK_FAILED"
  pub upstream_fails : report.upstream_failed ≡ true → report.status ≡ "CHECK_FAILED"
  pub fails :
      report.status ≡ "CHECK_FAILED"
      → (report.upstream_failed ≡ true)
        ⊎ ((row : Row) × In row report.rows × (is_failed row.status ≡ true))
  pub all_pass :
      report.diagnosis ≡ all_passed_text
      → (report.upstream_failed ≡ false)
        × ((row : Row) → In row report.rows → is_failed row.status ≡ false)

-- A list without failures, or a first failure.
pub rows_cases :
    (rows : List Row)
    → ((failed_rows rows ≡ []) × ((row : Row) → In row rows → is_failed row.status ≡ false))
      ⊎ ((bad : Row) × (more : List Row) × (failed_rows rows ≡ bad ∷ more)
          × In bad rows
          × (is_failed bad.status ≡ true))
rows_cases [] = inl (refl, λ row i. elim i [ ])
rows_cases (row ∷ rows) = elim (Bool-cases (is_failed row.status)) [
  | inl bad ↦ inr (row, failed_rows rows, rw bad refl, inl refl, bad)
  | inr good ↦ elim (rows_cases rows) [
    | inl (none_failed, all_good) ↦ inl (
      rw good none_failed,
      λ other i. elim i [
        | inl e ↦ subst (λ r. is_failed r.status ≡ false) (sym e) good
        | inr j ↦ all_good other j
      ],
    )
    | inr (bad, more, first, place, fails) ↦ inr (bad, more, rw good first, inr place, fails)
  ]
]

text_ne : {s t : String} → (s =s t) ≡ false → s ≡ t → ⊥
text_ne {s} {t} differ same = cc (subst (λ x. (s =s x) ≡ true) same ((eq_iff s s).1 refl))

checked_ne :
    (pending : Bool) (failures : List Row)
    → failures ≡ []
    → status_of pending failures ≡ "CHECK_FAILED"
    → ⊥
unfolding status_of
checked_ne true [] e h = text_ne refl h
checked_ne false [] e h = text_ne refl h
checked_ne pending (x ∷ xs) e h = cc

failed_status :
    (pending : Bool) (failures : List Row) {bad : Row} {more : List Row}
    → failures ≡ bad ∷ more
    → status_of pending failures ≡ "CHECK_FAILED"
unfolding status_of
failed_status pending [] e = cc
failed_status pending (x ∷ xs) e = refl

local_ne :
    (error : Failure) {text : String} → local_diagnosis error ≡ ok text → text ≡ all_passed_text → ⊥
unfolding local_diagnosis
local_ne error h same = elim (Bool-cases (contains transport_categories error.category)) [
  | inl e ↦ text_ne refl (ok-injective (rw e at h) ∙ same)
  | inr e ↦ text_ne refl (ok-injective (rw e at h) ∙ same)
]

plain_ne :
    (status : Status) {text : String}
    → ok (failed_text status) ≡ ok text
    → text ≡ all_passed_text
    → ⊥
plain_ne passed h same = text_ne refl (ok-injective h ∙ same)
plain_ne failed h same = text_ne refl (ok-injective h ∙ same)
plain_ne skipped h same = text_ne refl (ok-injective h ∙ same)

failed_ne :
    (rows : List Row) (configured : Row) {text : String}
    → failed_diagnosis rows configured ≡ ok text
    → text ≡ all_passed_text
    → ⊥
unfolding failed_diagnosis
failed_ne rows configured h same =
    elim (Bool-cases (is_failed configured.status && is_reachable rows)) [
      | inl e ↦
          let (error, _, h1) = bind_ok (error_at configured) _ (rw e at h) in local_ne error h1 same
      | inr e ↦ plain_ne configured.status (rw e at h) same
    ]

-- What stands behind a list that has failures.
named_ne :
    (rows : List Row) (found : Option Row) {text : String}
    → named_diagnosis rows found ≡ ok text
    → text ≡ all_passed_text
    → ⊥
unfolding named_diagnosis
named_ne rows none h same = cc
named_ne rows (some c) h same = failed_ne rows c h same

rows_diagnosis_sound :
    (rows : List Row) {text : String}
    → rows_diagnosis rows ≡ ok text
    → text ≡ all_passed_text
    → (row : Row) → In row rows
    → is_failed row.status ≡ false
unfolding rows_diagnosis diagnosis_of
rows_diagnosis_sound rows h same = elim (rows_cases rows) [
  | inl (none_failed, good) ↦ good
  | inr (bad, more, first, place, fails) ↦
      absurd (named_ne rows (first_row is_configured rows) (rw (first, rows_diagnosis) at h) same)
]

failed_not_skipped : (status : Status) → is_failed status ≡ true → not (is_skipped status) ≡ true
failed_not_skipped failed h = refl
failed_not_skipped passed h = cc
failed_not_skipped skipped h = cc

-- No row fails where the rows that were checked do not.
all_rows_sound :
    (rows : List Row)
    → ((row : Row)
        → In row (keep (λ r. not (is_skipped r.status)) rows)
        → is_failed row.status ≡ false)
    → (row : Row) → In row rows
    → is_failed row.status ≡ false
all_rows_sound rows good row i = elim (Bool-cases (is_failed row.status)) [
  | inl bad ↦
      good row
        (In-keep row (λ r. not (is_skipped r.status)) rows i (failed_not_skipped row.status bad))
  | inr fine ↦ fine
]

row_of-ShowsProbe :
    (name : String) (p : Probe) {row : Row}
    → row_of name p ≡ row
    → (row.name ≡ name) × ShowsProbe (ok p) row
unfolding row_of
row_of-ShowsProbe name p h =
    subst (λ row. (row.name ≡ name) × ShowsProbe (ok p) row) h
      (refl, (by_failure p.has_failed, never_skipped p.has_failed, refl))
  where
    by_failure : (b : Bool) → is_failed (if b then failed else passed) ≡ b
    by_failure true = refl
    by_failure false = refl

    never_skipped : (b : Bool) → is_skipped (if b then failed else passed) ≡ false
    never_skipped true = refl
    never_skipped false = refl

probed-ShowsProbe :
    (name : String) (r : Result Probe) {row : Row}
    → probed name r ≡ ok row
    → (row.name ≡ name) × ShowsProbe r row
unfolding probed
probed-ShowsProbe name (ok p) h = row_of-ShowsProbe name p (ok-injective h)
probed-ShowsProbe name (raise e) h =
    let (_, same) = if_ok (is_caught e) _ h in
    subst (λ row. (row.name ≡ name) × ShowsProbe (raise e) row) same (refl, (refl, refl))

run-Shows :
    (probe : Target → Result Probe) (t : Target) {row : Row}
    → run probe t ≡ ok row
    → Shows probe t row
unfolding run
run-Shows probe (skip name reason) h =
    subst (λ row. (row.name ≡ name) × (row.status ≡ skipped)) (ok-injective h) (refl, refl)
run-Shows probe (reach name origin url connect) h =
    probed-ShowsProbe name (probe (reach name origin url connect)) h

each-AreShown :
    (probe : Target → Result Probe) (targets : List Target) {rows : List Row}
    → each (run probe) targets ≡ ok rows
    → AreShown probe targets rows
unfolding each
each-AreShown probe [] h = subst (AreShown probe []) (ok-injective h) tt
each-AreShown probe (t ∷ targets) h =
    let (row, first, h1) = bind_ok (run probe t) _ h in
    let (rows, rest, h2) = bind_ok (each (run probe) targets) _ h1 in
    subst (AreShown probe (t ∷ targets)) (ok-injective h2)
      (run-Shows probe t first, each-AreShown probe targets rest)

not_run-AreSkipped : (targets : List Target) → AreSkipped targets (map not_run targets)
unfolding not_run
not_run-AreSkipped [] = tt
not_run-AreSkipped (skip name reason ∷ targets) = (refl, refl, not_run-AreSkipped targets)
not_run-AreSkipped (reach name origin url connect ∷ targets) =
    (refl, refl, not_run-AreSkipped targets)

complete_only :
    (pending : Bool) (failures : List Row)
    → status_of pending failures ≡ "CHECKED"
    → pending ≡ false
unfolding status_of
complete_only true [] h = absurd (text_ne refl h)
complete_only false [] h = refl
complete_only pending (x ∷ xs) h = absurd (text_ne refl h)

report_of-IsHonest :
    (probe : Target → Result Probe) (targets : List Target) (warnings : List String)
    (upstream : Result Upstream) {report : Report}
    → report_of probe targets warnings upstream ≡ ok report
    → IsHonest probe targets upstream report
unfolding report_of diagnosis
report_of-IsHonest probe targets warnings (ok upstream) h =
    let (rows, at_rows, h1) = bind_ok (each (run probe) targets) _ h in
    let (error, _, h2) = bind_ok (error_of (failed_rows rows)) _ h1 in
    let (text, at_text, h3) = bind_ok (diagnosis false rows) _ h2 in
    subst (IsHonest probe targets (ok upstream)) (ok-injective h3) (record {
      reports = (
        refl,
        each-AreShown probe targets at_rows,
        complete_only upstream.pending (failed_rows rows),
      );
      row_fails = λ row i bad. elim (rows_cases rows) [
        | inl (none_failed, good) ↦ cc (good row i)
        | inr (first, more, same, place, fails) ↦
            failed_status upstream.pending (failed_rows rows) same
      ];
      upstream_fails = λ e. cc;
      fails = λ e. elim (rows_cases rows) [
        | inl (none_failed, good) ↦
            absurd (checked_ne upstream.pending (failed_rows rows) none_failed e)
        | inr (first, more, same, place, fails) ↦ inr (first, place, fails)
      ];
      all_pass = λ e. (
        refl,
        all_rows_sound rows
            (rows_diagnosis_sound (keep (λ r. not (is_skipped r.status)) rows) at_text e),
      );
    })
report_of-IsHonest probe targets warnings (raise x) h = elim (Bool-cases (is_caught x)) [
  | inl caught ↦ subst (IsHonest probe targets (raise x)) (ok-injective (rw caught at h)) (record {
    reports = (refl, refl, not_run-AreSkipped targets);
    row_fails = λ row i bad. refl;
    upstream_fails = λ e. refl;
    fails = λ e. inl refl;
    all_pass = λ e. absurd (text_ne refl e);
  })
  | inr other ↦ cc (rw other at h)
]

-- Whatever the targets, the upstream and the probes do, a report is honest: behind an accepted upstream
-- it has a row for each target that shows what its probe came to, and behind one that failed the error
-- of that and no checked row. Its status is CHECK_FAILED exactly if one of them failed, its diagnosis
-- says that all paths passed only if none did, and it is CHECKED only with a transaction sample.
pub check_ingresses-IsHonest :
    (targets : Result (List Target × List String)) (upstream : Result Upstream)
    (probe : Target → Result Probe) {report : Report}
    → check_ingresses targets upstream probe ≡ ok report
    → (found : List Target) × (warnings : List String) × (targets ≡ ok (found, warnings))
      × IsHonest probe found upstream report
unfolding check_ingresses
check_ingresses-IsHonest targets upstream probe h =
    let ((found, warnings), at_targets, h1) = bind_ok targets _ h in
    (found, warnings, at_targets, report_of-IsHonest probe found warnings upstream h1)
