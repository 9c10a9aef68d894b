-- ===== src/Security/Scan.antt =====
-- `evaluate` of scripts/image_security.py.
use Prim.Native.Char.{code}
use usdb_explorer.Prelude.{
  ℕ, suc, String, Bool, true, false, if◌then◌else◌, not, ◌&&◌, ◌||◌, ◌=s◌, ◌==◌, List, [], ◌∷◌,
  ◌++◌, none, some, contains,
}
use usdb_explorer.Python.Value.{
  Value, null, str, arr, obj, nat, Fields, end, lookup, elements, equal,
}
use usdb_explorer.Python.Exn.{
  Result, ok, raise, value_error, ◌>>=◌, ◌>>◌, require, get, get_or, subscript, each,
}
use usdb_explorer.Security.{security_enforcement}
use usdb_explorer.Security.Reference.{canonical_reference}

-- One entry of `unresolved`.
pub record Unresolved : Type 0 where
  pub target : String
  pub advisory_id : String
  pub package_name : String
  pub version : String
  pub severity : String
  pub fixed_version : Value

-- The counts by severity, in the order of the sorted names.
pub record Counts : Type 0 where
  pub critical : ℕ
  pub high : ℕ
  pub low : ℕ
  pub medium : ℕ
  pub unknown : ℕ

abbrev pub no_counts : Counts
no_counts = record { critical = 0; high = 0; low = 0; medium = 0; unknown = 0 }

abbrev pub severities : List String
severities = "UNKNOWN" ∷ "LOW" ∷ "MEDIUM" ∷ "HIGH" ∷ "CRITICAL" ∷ []

abbrev pub count_if : Bool → ℕ → ℕ
count_if b n = if b then suc n else n

-- `counts[level] += 1`
unfoldable pub bump : String → Counts → Counts
bump level counts = record {
  critical = count_if (level =s "CRITICAL") counts.critical;
  high = count_if (level =s "HIGH") counts.high;
  low = count_if (level =s "LOW") counts.low;
  medium = count_if (level =s "MEDIUM") counts.medium;
  unknown = count_if (level =s "UNKNOWN") counts.unknown;
}

-- What the loop over the targets has gathered.
pub record Tally : Type 0 where
  pub counts : Counts
  pub unresolved : List Unresolved
  pub gateway_covered : Bool
  pub faucet_covered : Bool

-- `isinstance(d.get(key), str) and d[key]`, as the text.
unfoldable pub filled_text : Fields → String → String → Result String
filled_text d key message = elim (lookup key d) [
  | some (str s) ↦ if s =s "" then raise (value_error message) else ok s
  | _ ↦ raise (value_error message)
]

abbrev pub is_severe : String → Bool
is_severe level = (level =s "HIGH") || (level =s "CRITICAL")

-- `finding.get("FixedVersion", "")`
abbrev fixed_version_of : Fields → Value
fixed_version_of d = elim (lookup "FixedVersion" d) [ none ↦ str "" | some v ↦ v ]

-- A well-formed finding, which `unresolved` holds if it is severe.
unfoldable pub read_finding : String → Value → Result Unresolved
read_finding target (obj finding) = do
  advisory_id ← filled_text finding "VulnerabilityID" "malformed vulnerability"
  package_name ← filled_text finding "PkgName" "malformed vulnerability"
  version ← filled_text finding "InstalledVersion" "malformed vulnerability"
  level ← filled_text finding "Severity" "malformed vulnerability"
  require (contains severities level) "unknown vulnerability severity"
  ok (record {
    target = target;
    advisory_id = advisory_id;
    package_name = package_name;
    version = version;
    severity = level;
    fixed_version = fixed_version_of finding;
  })
read_finding target _ = raise (value_error "malformed vulnerability")

-- The body of the inner loop.
unfoldable pub add_finding : Unresolved → Tally → Tally
add_finding u tally = record {
  counts = bump u.severity tally.counts;
  unresolved = if is_severe u.severity then tally.unresolved ++ (u ∷ []) else tally.unresolved;
  gateway_covered = tally.gateway_covered;
  faucet_covered = tally.faucet_covered;
}

unfoldable pub add_findings : String → List Value → Tally → Result Tally
add_findings target [] tally = ok tally
add_findings target (v ∷ more) tally = do
  u ← read_finding target v
  add_findings target more (add_finding u tally)

-- `s.lstrip("/")`
unfoldable pub lstrip_slash : String → String
lstrip_slash String.[] = ""
lstrip_slash (String.◌∷◌ c s) =
    let rest = lstrip_slash s in if code c == b'/' then rest else String.◌∷◌ c s

abbrev covers : String → String → String → String → Bool
covers binary name kind type =
    (kind =s "lang-pkgs") && (type =s "gobinary") && (lstrip_slash name =s binary)

-- `target.get("Vulnerabilities", [])`, which has to be a list.
unfoldable pub vulnerabilities : Fields → Result (List Value)
vulnerabilities d = elim (lookup "Vulnerabilities" d) [
  | none ↦ ok []
  | some (arr items) ↦ ok (elements items)
  | some _ ↦ raise (value_error "malformed vulnerabilities array")
]

unfoldable pub add_target : Value → Tally → Result Tally
add_target (obj target) tally = do
  name ← filled_text target "Target" "malformed scan target"
  kind ← filled_text target "Class" "malformed scan target"
  type ← filled_text target "Type" "malformed scan target"
  findings ← vulnerabilities target
  add_findings name findings (record {
    counts = tally.counts;
    unresolved = tally.unresolved;
    gateway_covered = tally.gateway_covered || covers "gateway" name kind type;
    faucet_covered = tally.faucet_covered || covers "faucet" name kind type;
  })
add_target _ tally = raise (value_error "malformed scan target")

unfoldable pub add_targets : List Value → Tally → Result Tally
add_targets [] tally = ok tally
add_targets (target ∷ more) tally = do next ← add_target target tally; add_targets more next

abbrev pub no_tally : Tally
no_tally = record {
  counts = no_counts;
  unresolved = [];
  gateway_covered = false;
  faucet_covered = false;
}

pub record Decision : Type 0 where
  pub enforcement : String
  pub raw_counts : Counts
  pub unresolved : List Unresolved
  pub passes : Bool

abbrev pub as_dict : Value → String → Result Fields
as_dict (obj d) message = ok d
as_dict _ message = raise (value_error message)

abbrev pub as_list : Value → String → Result (List Value)
as_list (arr items) message = ok (elements items)
as_list _ message = raise (value_error message)

-- The report is one of the image that the identity names.
unfoldable pub check_image : Value → Value → List Value → Result (Unit {0})
check_image reference artifact digests = do
  expected ← canonical_reference reference
  actual ← canonical_reference artifact
  require (actual =s expected) "report image digest mismatch"
  names ← each canonical_reference digests
  require (contains names expected) "report image digest mismatch"

-- The labels bind a first-party image to the commit it was built from.
unfoldable pub check_source : Value → Value → Result (Unit {0})
check_source null config = ok tt
check_source revision config = do
  inner ← get_or config "config" (obj end)
  labels ← get_or inner "Labels" (obj end)
  label ← get labels "org.opencontainers.image.revision"
  require (equal label revision) "first-party image source revision mismatch"

abbrev pub is_empty : {A : Type 0} → List A → Bool
is_empty [] = true
is_empty (x ∷ xs) = false

-- The digests of the metadata, and the platform and the source of its configuration.
unfoldable pub check_metadata : Value → Value → Fields → Result (Unit {0})
check_metadata artifact identity metadata = do
  digests ← as_list (← get (obj metadata) "RepoDigests") "invalid Trivy image metadata"
  check_image (← subscript identity "image_reference") artifact digests
  config ← as_dict (← get_or (obj metadata) "ImageConfig" (obj end)) "invalid image configuration"
  os ← get (obj config) "os"
  architecture ← get (obj config) "architecture"
  require (equal os (str "linux") && equal architecture (str "amd64")) "report platform mismatch"
  check_source (← subscript identity "image_source_revision") (obj config)

unfoldable pub check_kind : Fields → Result (Unit {0})
check_kind report = do
  version ← get (obj report) "SchemaVersion"
  kind ← get (obj report) "ArtifactType"
  require (equal version (nat 2) && equal kind (str "container_image"))
      "invalid Trivy container report"

unfoldable pub read_targets : Fields → Result (List Value)
read_targets report = do
  results ← get (obj report) "Results"
  targets ← as_list results "report has no scan targets"
  require (not (is_empty targets)) "report has no scan targets"
  ok targets

-- What `evaluate` checks before it counts.
unfoldable pub check_report : Fields → Value → Result (List Value)
check_report report identity = do
  check_kind report
  metadata ← as_dict (← get_or (obj report) "Metadata" (obj end)) "invalid Trivy image metadata"
  check_metadata (← get (obj report) "ArtifactName") identity metadata
  read_targets report

abbrev is_text : Value → String → Bool
is_text (str s) t = s =s t
is_text _ t = false

unfoldable pub check_coverage : Value → Tally → Result (Unit {0})
check_coverage name tally = do
  require (not (is_text name "gateway") || tally.gateway_covered)
      "gateway Go binary coverage is missing"
  require (not (is_text name "gateway") || tally.faucet_covered)
      "faucet Go binary coverage is missing"

unfoldable pub policy_of : Value → Result String
policy_of identity = do
  network ← subscript identity "network"
  enforcement ← subscript identity "enforcement"
  security_enforcement network enforcement

unfoldable pub decide : String → Tally → Decision
decide mode tally = record {
  enforcement = mode;
  raw_counts = tally.counts;
  unresolved = tally.unresolved;
  passes = not ((mode =s "strict") && not (is_empty tally.unresolved));
}

unfoldable pub evaluate : Value → Value → Result Decision
evaluate report identity = do
  mode ← policy_of identity
  fields ← as_dict report "invalid Trivy container report"
  targets ← check_report fields identity
  tally ← add_targets targets no_tally
  check_coverage (← subscript identity "name") tally
  ok (decide mode tally)
