-- ===== src/Security/Findings.antt =====
-- What the inner loop of `evaluate` in scripts/image_security.py counts and keeps.
use usdb_explorer.Prelude.{
  ◌≡◌, refl, sym, ap, subst, inl, inr, ℕ, suc, ◌+◌, String, Bool, true, false, ◌||◌, ◌=s◌, List, [],
  ◌∷◌, ◌++◌, Option, some, none, keep, ◌∙◌, length, arith, eq_iff, contains, if◌then◌else◌,
  Bool-cases,
}
use usdb_explorer.Python.Value.{Value, Fields, obj, str, lookup}
use usdb_explorer.Python.Exn.{ok, raise, value_error, require_ok, bind_ok}
use usdb_explorer.Python.Exn.Loops.{ok-injective, unless_ok}
use usdb_explorer.Security.Scan.{
  Unresolved, Tally, bump, count_if, is_severe, filled_text, read_finding, add_finding,
  add_findings, severities,
}

-- The unresolved findings are those that are counted as high or critical.
abbrev pub IsBalanced : Tally → Type 0
IsBalanced t = length t.unresolved ≡ t.counts.high + t.counts.critical

length-snoc : {A : Type 0} (xs : List A) (x : A) → length (xs ++ (x ∷ [])) ≡ suc (length xs)
length-snoc [] x = refl
length-snoc (y ∷ xs) x = ap suc (length-snoc xs x)

exclusive : (level : String) → level =s "HIGH" ≡ true → level =s "CRITICAL" ≡ false
exclusive level h =
    let same = (eq_iff level "HIGH").0 h in subst (λ l. l =s "CRITICAL" ≡ false) (sym same) refl

grown :
    (us : List Unresolved) (u : Unresolved) (c h : ℕ) (high critical : Bool)
    → length us ≡ h + c
    → (high ≡ true → critical ≡ false)
    → length (if high || critical then us ++ (u ∷ []) else us)
      ≡ count_if high h + count_if critical c
grown us u c h true true b e = cc (e refl)
grown us u c h true false b e = omega (arith, b, length-snoc us u)
grown us u c h false true b e = omega (arith, b, length-snoc us u)
grown us u c h false false b e = b

add_finding-IsBalanced : (u : Unresolved) (t : Tally) → IsBalanced t → IsBalanced (add_finding u t)
unfolding add_finding bump
add_finding-IsBalanced u t h =
    grown t.unresolved u t.counts.critical t.counts.high (u.severity =s "HIGH")
      (u.severity =s "CRITICAL") h (exclusive u.severity)

pub add_findings-IsBalanced :
    (target : String) (vs : List Value) (t : Tally) {t' : Tally}
    → IsBalanced t
    → add_findings target vs t ≡ ok t'
    → IsBalanced t'
unfolding add_findings
add_findings-IsBalanced target [] t b h = subst IsBalanced (ok-injective h) b
add_findings-IsBalanced target (v ∷ vs) t b h =
    let (u, _, h1) = bind_ok (read_finding target v) _ h in
    add_findings-IsBalanced target vs (add_finding u t) (add_finding-IsBalanced u t b) h1

-- The text under a key.
abbrev pub text_at : String → Fields → String
text_at key d = elim (lookup key d) [ some (str s) ↦ s | _ ↦ "" ]

-- What the report says of a finding.
abbrev pub entry_of : String → Fields → Unresolved
entry_of target finding = record {
  target = target;
  advisory_id = text_at "VulnerabilityID" finding;
  package_name = text_at "PkgName" finding;
  version = text_at "InstalledVersion" finding;
  severity = text_at "Severity" finding;
  fixed_version = elim (lookup "FixedVersion" finding) [ none ↦ str "" | some v ↦ v ];
}

abbrev pub entries : String → List Value → List Unresolved
entries target [] = []
entries target (obj finding ∷ more) = entry_of target finding ∷ entries target more
entries target (_ ∷ more) = entries target more

abbrev pub severe : List Unresolved → List Unresolved
severe us = keep (λ (u : Unresolved). is_severe u.severity) us

-- How many of them have that severity.
abbrev pub count_of : String → List Unresolved → ℕ
count_of level [] = 0
count_of level (u ∷ us) = count_if (u.severity =s level) (count_of level us)

-- What a part of the loops adds to the tally: the severe ones of the entries, in their order, and
-- each of them to its count.
pub record Adds (us : List Unresolved) (t t' : Tally) : Type 0 where
  pub unresolved : t'.unresolved ≡ t.unresolved ++ severe us
  pub critical : t'.counts.critical ≡ count_of "CRITICAL" us + t.counts.critical
  pub high : t'.counts.high ≡ count_of "HIGH" us + t.counts.high
  pub low : t'.counts.low ≡ count_of "LOW" us + t.counts.low
  pub medium : t'.counts.medium ≡ count_of "MEDIUM" us + t.counts.medium
  pub unknown : t'.counts.unknown ≡ count_of "UNKNOWN" us + t.counts.unknown

append_nil : {A : Type 0} (xs : List A) → xs ++ [] ≡ xs
append_nil [] = refl
append_nil (x ∷ xs) = ap (λ zs. x ∷ zs) (append_nil xs)

append_assoc : {A : Type 0} (xs ys zs : List A) → (xs ++ ys) ++ zs ≡ xs ++ (ys ++ zs)
append_assoc [] ys zs = refl
append_assoc (x ∷ xs) ys zs = ap (λ ws. x ∷ ws) (append_assoc xs ys zs)

severe-append : (us vs : List Unresolved) → severe (us ++ vs) ≡ severe us ++ severe vs
severe-append [] vs = refl
severe-append (u ∷ us) vs = elim (Bool-cases (is_severe u.severity)) [
  | inl yes_u ↦ rw yes_u (ap (λ ws. u ∷ ws) (severe-append us vs))
  | inr no_u ↦ rw no_u (severe-append us vs)
]

count_of-append :
    (level : String) (us vs : List Unresolved)
    → count_of level (us ++ vs) ≡ count_of level us + count_of level vs
count_of-append level [] vs = omega arith
count_of-append level (u ∷ us) vs = elim (Bool-cases (u.severity =s level)) [
  | inl same ↦ rw same (omega (arith, count_of-append level us vs))
  | inr other ↦ rw other (count_of-append level us vs)
]

pub nothing-Adds : (t : Tally) → Adds [] t t
nothing-Adds t = record {
  unresolved = sym (append_nil t.unresolved);
  critical = omega arith;
  high = omega arith;
  low = omega arith;
  medium = omega arith;
  unknown = omega arith;
}

pub both-Adds :
    (us vs : List Unresolved) (t s t' : Tally) → Adds us t s → Adds vs s t' → Adds (us ++ vs) t t'
both-Adds us vs t s t' a b = record {
  unresolved =
      b.unresolved
      ∙ (ap (λ ws. ws ++ severe vs) a.unresolved
          ∙ (append_assoc t.unresolved (severe us) (severe vs)
              ∙ ap (λ ws. t.unresolved ++ ws) (sym (severe-append us vs))));
  critical = omega (arith, a.critical, b.critical, count_of-append "CRITICAL" us vs);
  high = omega (arith, a.high, b.high, count_of-append "HIGH" us vs);
  low = omega (arith, a.low, b.low, count_of-append "LOW" us vs);
  medium = omega (arith, a.medium, b.medium, count_of-append "MEDIUM" us vs);
  unknown = omega (arith, a.unknown, b.unknown, count_of-append "UNKNOWN" us vs);
}

count_if_sum : (b : Bool) (n : ℕ) → count_if b n ≡ count_if b 0 + n
count_if_sum true n = omega arith
count_if_sum false n = omega arith

one_severe :
    (b : Bool) (ws : List Unresolved) (u : Unresolved)
    → (if b then ws ++ (u ∷ []) else ws) ≡ ws ++ (if b then u ∷ [] else [])
one_severe true ws u = refl
one_severe false ws u = sym (append_nil ws)

add_finding-Adds : (u : Unresolved) (t : Tally) → Adds (u ∷ []) t (add_finding u t)
unfolding add_finding bump
add_finding-Adds u t = record {
  unresolved = one_severe (is_severe u.severity) t.unresolved u;
  critical = count_if_sum (u.severity =s "CRITICAL") t.counts.critical;
  high = count_if_sum (u.severity =s "HIGH") t.counts.high;
  low = count_if_sum (u.severity =s "LOW") t.counts.low;
  medium = count_if_sum (u.severity =s "MEDIUM") t.counts.medium;
  unknown = count_if_sum (u.severity =s "UNKNOWN") t.counts.unknown;
}

-- A text that is there is the one under its key.
pub filled_text-text_at :
    (d : Fields) (key message : String) {s : String}
    → filled_text d key message ≡ ok s
    → text_at key d ≡ s
unfolding filled_text
filled_text-text_at d key message {s} h = from (lookup key d) h
  where
    from :
        (o : Option Value)
        → (elim o [
          | some (str x) ↦ if x =s "" then raise (value_error message) else ok x
          | _ ↦ raise (value_error message)
        ])
          ≡ ok s
        → (elim o [ some (str x) ↦ x | _ ↦ "" ]) ≡ s
    from (some (str x)) e = (unless_ok (x =s "") (value_error message) e).1
    from (some (obj x)) e = cc
    from (some (Value.arr x)) e = cc
    from (some (Value.bool x)) e = cc
    from (some (Value.int x)) e = cc
    from (some (Value.float x)) e = cc
    from (some Value.null) e = cc
    from none e = cc

read_finding-entry :
    (target : String) (v : Value) {u : Unresolved}
    → read_finding target v ≡ ok u
    → entries target (v ∷ []) ≡ u ∷ []
unfolding read_finding
read_finding-entry target (obj f) h =
    let (advisory, at_advisory, h1) = bind_ok (filled_text f "VulnerabilityID" _) _ h in
    let (name, at_package, h2) = bind_ok (filled_text f "PkgName" _) _ h1 in
    let (version, at_version, h3) = bind_ok (filled_text f "InstalledVersion" _) _ h2 in
    let (level, at_level, h4) = bind_ok (filled_text f "Severity" "malformed vulnerability") _ h3 in
    let (_, h5) = require_ok (contains severities level) _ _ h4 in
    ap (λ u. u ∷ [])
      ((λ i. record {
        target = target;
        advisory_id = filled_text-text_at f "VulnerabilityID" _ at_advisory i;
        package_name = filled_text-text_at f "PkgName" _ at_package i;
        version = filled_text-text_at f "InstalledVersion" _ at_version i;
        severity = filled_text-text_at f "Severity" _ at_level i;
        fixed_version = elim (lookup "FixedVersion" f) [ none ↦ str "" | some v ↦ v ];
      })
        ∙ ok-injective h5)
read_finding-entry target _ h = cc

entries_cons :
    (target : String) (v : Value) (vs : List Value)
    → entries target (v ∷ vs) ≡ entries target (v ∷ []) ++ entries target vs
entries_cons target (obj f) vs = refl
entries_cons target (Value.arr x) vs = refl
entries_cons target (str x) vs = refl
entries_cons target (Value.bool x) vs = refl
entries_cons target (Value.int x) vs = refl
entries_cons target (Value.float x) vs = refl
entries_cons target Value.null vs = refl

pub add_findings-Adds :
    (target : String) (vs : List Value) (t : Tally) {t' : Tally}
    → add_findings target vs t ≡ ok t'
    → Adds (entries target vs) t t'
unfolding add_findings
add_findings-Adds target [] t h = subst (Adds [] t) (ok-injective h) (nothing-Adds t)
add_findings-Adds target (v ∷ vs) t {t'} h =
    let (u, at_u, h1) = bind_ok (read_finding target v) _ h in
    let first =
      subst (λ us. Adds us t (add_finding u t)) (sym (read_finding-entry target v at_u))
        (add_finding-Adds u t) in
    subst (λ us. Adds us t t') (sym (entries_cons target v vs))
      (both-Adds (entries target (v ∷ [])) (entries target vs) t (add_finding u t) t' first
        (add_findings-Adds target vs (add_finding u t) h1))
