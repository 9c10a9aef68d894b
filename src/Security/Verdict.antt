-- ===== src/Security/Verdict.antt =====
-- What a decision of `evaluate` in scripts/image_security.py says of the report.
use usdb_explorer.Prelude.{
  ◌≡◌, refl, sym, ap, subst, ◌∙◌, ◌+◌, String, true, false, not, ◌&&◌, ◌=s◌, List, [], ◌∷◌, length,
  arith, eq_iff,
}
use usdb_explorer.Python.Value.{Value, Fields, Items, obj, arr, elements, end}
use usdb_explorer.Python.Exn.{ok, get, get_or, subscript, require_ok, bind_ok}
use usdb_explorer.Python.Exn.Loops.{ok-injective}
use usdb_explorer.Security.Policy.{IsPolicy, security_enforcement-IsPolicy}
use usdb_explorer.Security.Scan.{
  Counts, Unresolved, Tally, Decision, add_targets, no_tally, check_report, check_kind,
  check_metadata, check_coverage, read_targets, policy_of, decide, evaluate, is_empty, as_dict,
  as_list,
}
use usdb_explorer.Security.Targets.{add_targets-IsBalanced, all_entries, add_targets-Adds}
use usdb_explorer.Security.Findings.{severe, count_of, Adds}

-- Each count is the number of the entries of its severity.
pub record AreCounted (counts : Counts) (us : List Unresolved) : Type 0 where
  pub critical : counts.critical ≡ count_of "CRITICAL" us
  pub high : counts.high ≡ count_of "HIGH" us
  pub low : counts.low ≡ count_of "LOW" us
  pub medium : counts.medium ≡ count_of "MEDIUM" us
  pub unknown : counts.unknown ≡ count_of "UNKNOWN" us

counted : (us : List Unresolved) {t : Tally} → Adds us no_tally t → AreCounted t.counts us
counted us a = record {
  critical = omega (arith, a.critical);
  high = omega (arith, a.high);
  low = omega (arith, a.low);
  medium = omega (arith, a.medium);
  unknown = omega (arith, a.unknown);
}

-- What a decision says: its mode is the policy of the network, its unresolved entries are those of
-- the high and critical findings of the report, with their target, advisory, package and versions, in
-- their order, its counts are those of all the findings, and a strict pass has nothing unresolved.
pub record IsDecision (report identity : Value) (d : Decision) : Type 0 where
  pub targets : Items
  pub results : get report "Results" ≡ ok (arr targets)
  pub network : Value
  pub requested : Value
  pub of_network : subscript identity "network" ≡ ok network
  pub of_request : subscript identity "enforcement" ≡ ok requested
  pub policy : IsPolicy network requested d.enforcement
  pub complete : d.unresolved ≡ severe (all_entries (elements targets))
  pub counted : AreCounted d.raw_counts (all_entries (elements targets))
  pub balanced : length d.unresolved ≡ d.raw_counts.high + d.raw_counts.critical
  pub strict : d.enforcement ≡ "strict" → d.passes ≡ true → d.unresolved ≡ []

policy_of_sound :
    (identity : Value) {mode : String}
    → policy_of identity ≡ ok mode
    → (network requested : Value) × (subscript identity "network" ≡ ok network)
      × (subscript identity "enforcement" ≡ ok requested)
      × IsPolicy network requested mode
unfolding policy_of
policy_of_sound identity h =
    let (network, at_network, h1) = bind_ok (subscript identity "network") _ h in
    let (requested, at_requested, h2) = bind_ok (subscript identity "enforcement") _ h1 in
    (
      network,
      requested,
      at_network,
      at_requested,
      security_enforcement-IsPolicy network requested h2,
    )

as_list_sound :
    (v : Value) (message : String) {vs : List Value}
    → as_list v message ≡ ok vs
    → (items : Items) × (v ≡ arr items) × (elements items ≡ vs)
as_list_sound (arr items) message h = (items, refl, ok-injective h)
as_list_sound _ message h = cc

as_dict_sound : (v : Value) (message : String) {d : Fields} → as_dict v message ≡ ok d → v ≡ obj d
as_dict_sound (obj d) message h = ap obj (ok-injective h)
as_dict_sound _ message h = cc

read_targets_sound :
    (report : Fields) {vs : List Value}
    → read_targets report ≡ ok vs
    → (items : Items) × (get (obj report) "Results" ≡ ok (arr items)) × (elements items ≡ vs)
unfolding read_targets
read_targets_sound report h =
    let (results, at_results, h1) = bind_ok (get (obj report) "Results") _ h in
    let (targets, at_targets, h2) = bind_ok (as_list results _) _ h1 in
    let (_, h3) = require_ok (not (is_empty targets)) _ _ h2 in
    let (items, is, same) = as_list_sound results _ at_targets in
    (items, at_results ∙ ap ok is, same ∙ ok-injective h3)

check_report-targets :
    (report : Fields) (identity : Value) {vs : List Value}
    → check_report report identity ≡ ok vs
    → read_targets report ≡ ok vs
unfolding check_report
check_report-targets report identity h =
    let (_, _, h1) = bind_ok (check_kind report) _ h in
    let (m, _, h2) = bind_ok (get_or (obj report) "Metadata" (obj end)) _ h1 in
    let (metadata, _, h3) = bind_ok (as_dict m _) _ h2 in
    let (name, _, h4) = bind_ok (get (obj report) "ArtifactName") _ h3 in
    let (_, _, h5) = bind_ok (check_metadata name identity metadata) _ h4 in h5

strictly :
    (mode : String) (us : List Unresolved)
    → mode ≡ "strict"
    → not ((mode =s "strict") && not (is_empty us)) ≡ true
    → not (is_empty us) ≡ false
strictly mode us is h = ground (arith, eq_iff mode "strict", is)

strict_empty : (us : List Unresolved) → not (is_empty us) ≡ false → us ≡ []
strict_empty [] h = refl
strict_empty (u ∷ us) h = cc

decide-strict :
    (mode : String) (t : Tally)
    → mode ≡ "strict"
    → (decide mode t).passes ≡ true
    → t.unresolved ≡ []
unfolding decide
decide-strict mode t is h = strict_empty t.unresolved (strictly mode t.unresolved is h)

decided :
    (report identity : Value) (fields : Fields) (targets : List Value) (mode : String)
    (tally : Tally)
    → report ≡ obj fields
    → policy_of identity ≡ ok mode
    → read_targets fields ≡ ok targets
    → add_targets targets no_tally ≡ ok tally
    → IsDecision report identity (decide mode tally)
unfolding decide
decided report identity fields targets mode tally is at_mode at_targets at_tally =
    let (network, requested, at_network, at_requested, policy) = policy_of_sound identity at_mode in
    let (items, at_items, same) = read_targets_sound fields at_targets in
    let adds = add_targets-Adds targets no_tally at_tally in
    record {
      targets = items;
      results = ap (λ r. get r "Results") is ∙ at_items;
      network = network;
      requested = requested;
      of_network = at_network;
      of_request = at_requested;
      policy = policy;
      complete = adds.unresolved ∙ ap (λ vs. severe (all_entries vs)) (sym same);
      counted =
          subst (λ vs. AreCounted tally.counts (all_entries vs)) (sym same)
            (counted (all_entries targets) adds);
      balanced = add_targets-IsBalanced targets no_tally refl at_tally;
      strict = λ strict passed. decide-strict mode tally strict passed;
    }

-- A decision on a report has the mode that the policy gives for the network. Its unresolved entries
-- are exactly those of the high and critical findings of the report, each with its target, advisory,
-- package and versions, its counts are those of the findings by severity, and it passes in strict mode
-- only with nothing unresolved.
pub evaluate-IsDecision :
    (report identity : Value) {d : Decision}
    → evaluate report identity ≡ ok d
    → IsDecision report identity d
unfolding evaluate
evaluate-IsDecision report identity {d} h =
    let (mode, at_mode, h1) = bind_ok (policy_of identity) _ h in
    let (fields, at_fields, h2) = bind_ok (as_dict report "invalid Trivy container report") _ h1 in
    let (targets, at_targets, h3) = bind_ok (check_report fields identity) _ h2 in
    let (tally, at_tally, h4) = bind_ok (add_targets targets no_tally) _ h3 in
    let (name, _, h5) = bind_ok (subscript identity "name") _ h4 in
    let (_, _, h6) = bind_ok (check_coverage name tally) _ h5 in
    subst (IsDecision report identity) (ok-injective h6) (
      decided report identity fields targets mode tally (as_dict_sound report _ at_fields) at_mode
        (check_report-targets fields identity at_targets) at_tally)
