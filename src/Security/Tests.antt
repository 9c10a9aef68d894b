-- ===== src/Security/Tests.antt =====
-- Runs of the image security policy, and its theorems at them.
use usdb_explorer.Prelude.{◌≡◌, refl, String, ◌<>◌, false, [], ◌∷◌}
use usdb_explorer.Python.Value.{Value, Fields, field, end, obj, str, arr, nil, cons, null, nat}
use usdb_explorer.Python.Exn.{Result, ok, raise, value_error}
use usdb_explorer.Security.{security_enforcement}
use usdb_explorer.Security.Policy.{IsPolicy, security_enforcement-IsPolicy}
use usdb_explorer.Security.Reference.{canonical_reference}
use usdb_explorer.Security.Scan.{Decision, Unresolved, evaluate}
use usdb_explorer.Security.Verdict.{IsDecision, evaluate-IsDecision}

security_enforcement-IsPolicy_example : IsPolicy (str "usdb-mainnet-v1") null "strict"
unfolding security_enforcement usdb_explorer.Security.requested_mode
    usdb_explorer.Security.network_mode usdb_explorer.Python.Regex.full_match
security_enforcement-IsPolicy_example =
    security_enforcement-IsPolicy (str "usdb-mainnet-v1") null {mode = "strict"} refl

mainnet_stays_strict :
    security_enforcement (str "usdb-mainnet-v1") (str "report-only")
    ≡ raise (value_error "mainnet security enforcement must remain strict")
unfolding security_enforcement usdb_explorer.Security.requested_mode
    usdb_explorer.Security.network_mode usdb_explorer.Python.Regex.full_match
mainnet_stays_strict = refl

abbrev digest : String
digest = "@sha256:0000000000000000000000000000000000000000000000000000000000000000"

-- A short name of Docker Hub, one of its index, and a name of another registry.
short_names :
    (canonical_reference (str ("redis" <> digest)) ≡ ok ("docker.io/library/redis" <> digest))
    × (canonical_reference (str ("index.docker.io/a/b" <> digest)) ≡ ok ("docker.io/a/b" <> digest))
    × (canonical_reference (str ("docker.io/redis" <> digest))
        ≡ ok ("docker.io/library/redis" <> digest))
    × (canonical_reference (str ("ghcr.io/a/b" <> digest)) ≡ ok ("ghcr.io/a/b" <> digest))
unfolding canonical_reference usdb_explorer.Python.Regex.full_match
    usdb_explorer.Security.Reference.canonical_name usdb_explorer.Python.Text.partition
    usdb_explorer.Security.Reference.count_code usdb_explorer.Security.Reference.drop
short_names = (refl, refl, refl, refl)

abbrev finding : Value
finding = obj (
    field "VulnerabilityID" (str "CVE-1") (
      field "PkgName" (str "openssl")
        (field "InstalledVersion" (str "3.0") (field "Severity" (str "HIGH") end))))

abbrev report : Value
report = obj (
    field "SchemaVersion" (nat 2) (
      field "ArtifactType" (str "container_image") (
        field "ArtifactName" (str ("redis" <> digest)) (
          field "Metadata"
            (obj (
              field "RepoDigests" (arr (cons (str ("redis" <> digest)) nil)) (
                field "ImageConfig"
                  (obj (field "os" (str "linux") (field "architecture" (str "amd64") end))) end)))
            (field "Results"
              (arr (
                cons
                  (obj (
                    field "Target" (str "redis") (
                      field "Class" (str "os-pkgs") (
                        field "Type" (str "debian")
                          (field "Vulnerabilities" (arr (cons finding nil)) end)))))
                  nil))
              end)))))

abbrev identity : Value
identity = obj (
    field "name" (str "redis") (
      field "image_reference" (str ("docker.io/library/redis" <> digest)) (
        field "enforcement" (str "strict")
          (field "network" (str "usdb-testnet-v1") (field "image_source_revision" null end)))))

abbrev openssl : Unresolved
openssl = record {
  target = "redis";
  advisory_id = "CVE-1";
  package_name = "openssl";
  version = "3.0";
  severity = "HIGH";
  fixed_version = str "";
}

abbrev decision : Decision
decision = record {
  enforcement = "strict";
  raw_counts = record { critical = 0; high = 1; low = 0; medium = 0; unknown = 0 };
  unresolved = openssl ∷ [];
  passes = false;
}

evaluate-IsDecision_example : IsDecision report identity decision
unfolding evaluate usdb_explorer.Security.Scan.policy_of usdb_explorer.Security.Scan.check_report
    usdb_explorer.Security.Scan.check_kind usdb_explorer.Security.Scan.check_metadata
    usdb_explorer.Security.Scan.check_image usdb_explorer.Security.Scan.check_source
    usdb_explorer.Security.Scan.read_targets usdb_explorer.Security.Scan.add_targets
    usdb_explorer.Security.Scan.add_target usdb_explorer.Security.Scan.add_findings
    usdb_explorer.Security.Scan.add_finding usdb_explorer.Security.Scan.bump
    usdb_explorer.Security.Scan.read_finding usdb_explorer.Security.Scan.vulnerabilities
    usdb_explorer.Security.Scan.filled_text usdb_explorer.Security.Scan.check_coverage
    usdb_explorer.Security.Scan.decide usdb_explorer.Security.security_enforcement
    usdb_explorer.Security.requested_mode usdb_explorer.Security.network_mode canonical_reference
    usdb_explorer.Security.Reference.canonical_name usdb_explorer.Python.Exn.get
    usdb_explorer.Python.Exn.get_or usdb_explorer.Python.Exn.subscript usdb_explorer.Python.Exn.each
    usdb_explorer.Python.Value.lookup usdb_explorer.Python.Value.elements
    usdb_explorer.Python.Value.equal usdb_explorer.Python.Regex.full_match
    usdb_explorer.Python.Text.partition usdb_explorer.Security.Reference.count_code
evaluate-IsDecision_example = evaluate-IsDecision report identity {d = decision} refl
