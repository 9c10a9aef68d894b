-- ===== src/Notes/Build/Flags.antt =====
-- The compatibility flags of a release, and its classification.
use usdb_explorer.Prelude.{
  ◌≡◌, refl, sym, subst, String, Bool, true, false, ◌=s◌, if◌then◌else◌, none, inl, inr, Option,
  some, List, [], ◌∷◌, arith, In, any, Bool-cases,
}
use usdb_explorer.Python.Value.{str, equal}
use usdb_explorer.Python.Exn.{ok, bind_ok, require_ok}
use usdb_explorer.Python.Exn.Loops.{ok-injective}
use usdb_explorer.Python.Regex.{full_match}
use usdb_explorer.Notes.Version.{Identity, tag_identity, version_key, lt_key}
use usdb_explorer.Notes.Fragment.{Compatibility}
use usdb_explorer.Notes.Changes.{
  Impact, Change, Inputs, NewFragment, value_at, source_changes, range_changes,
}
use usdb_explorer.Notes.Changes.Evidence.{value_change, source_changes-IsReported}
use usdb_explorer.Notes.Inputs.{Sources, requires_notes, source_inputs}
use usdb_explorer.Notes.Build.{
  same_impact, flag_of, has_impact, compatibility_flags, Classification, network_reset,
  data_rebuild, config_change, restart_required, in_place, classification_of, ReleaseChanges,
  gateway_re, check_frontend, given_revision, check_previous, prior_inputs, Comparison,
  compare_revisions, build_changes,
}

-- What each classification says of the flags: the first of the four that is set, or none.
abbrev pub Explains : Compatibility → Classification → Type 0
Explains f network_reset = f.network_reset ≡ true
Explains f data_rebuild = (f.network_reset ≡ false) × (f.data_rebuild ≡ true)
Explains f config_change =
    (f.network_reset ≡ false) × (f.data_rebuild ≡ false) × (f.config_change ≡ true)
Explains f restart_required =
    (f.network_reset ≡ false)
    × (f.data_rebuild ≡ false)
    × (f.config_change ≡ false)
    × (f.restart_required ≡ true)
Explains f in_place =
    (f.network_reset ≡ false)
    × (f.data_rebuild ≡ false)
    × (f.config_change ≡ false)
    × (f.restart_required ≡ false)

abbrev flags : Bool → Bool → Bool → Bool → Compatibility
flags reset rebuild config restart = record {
  config_change = config;
  data_rebuild = rebuild;
  network_reset = reset;
  restart_required = restart;
}

flags-Explains : (a b c d : Bool) → Explains (flags a b c d) (classification_of (flags a b c d))
unfolding classification_of
flags-Explains true b c d = refl
flags-Explains false true c d = (refl, refl)
flags-Explains false false true d = (refl, refl, refl)
flags-Explains false false false true = (refl, refl, refl, refl)
flags-Explains false false false false = (refl, refl, refl, refl)

-- The classification is the first of the four flags that is set, and `in_place` if none is.
pub classification_of-Explains : (f : Compatibility) → Explains f (classification_of f)
classification_of-Explains f =
    flags-Explains f.network_reset f.data_rebuild f.config_change f.restart_required

same_impact_refl : (k : Impact) → same_impact k k ≡ true
same_impact_refl Impact.config_change = refl
same_impact_refl Impact.data_rebuild = refl
same_impact_refl Impact.network_reset = refl
same_impact_refl Impact.restart_required = refl

any_In : {A : Type 0} (p : A → Bool) {x : A} (xs : List A) → In x xs → p x ≡ true → any p xs ≡ true
any_In p [] i h = elim i [ ]
any_In p {x} (y ∷ xs) (inl e) h = rw (subst (λ z. p z ≡ true) e h)
any_In p (y ∷ xs) (inr i) h = ground (arith, any_In p xs i h)

module _ (changes : List NewFragment) (evidence : List Change) where
  -- What the flags of an upgrade in place say of each impact.
  no_impact :
      (key : Impact)
      → classification_of (compatibility_flags changes evidence) ≡ in_place
      → has_impact key changes evidence ≡ false
  no_impact key h =
      let all_false =
        subst (Explains (compatibility_flags changes evidence)) h
          (classification_of-Explains (compatibility_flags changes evidence)) in
      from key all_false
    where
      from :
          (key : Impact)
          → Explains (compatibility_flags changes evidence) in_place
          → has_impact key changes evidence ≡ false
      from Impact.config_change e = unfold compatibility_flags in e.2
      from Impact.data_rebuild e = unfold compatibility_flags in ground arith
      from Impact.network_reset e = unfold compatibility_flags in e.0
      from Impact.restart_required e = unfold compatibility_flags in e.3

  evidence_has_impact : (c : Change) → In c evidence → has_impact c.impact changes evidence ≡ true
  unfolding has_impact
  evidence_has_impact c i = ground (
    arith,
    any_In (λ (d : Change). same_impact d.impact c.impact) evidence i (same_impact_refl c.impact),
  )

  fragment_has_impact :
      (n : NewFragment) (key : Impact)
      → In n changes
      → flag_of key n.fragment.compatibility ≡ true
      → has_impact key changes evidence ≡ true
  unfolding has_impact
  fragment_has_impact n key i h =
      ground (arith, any_In (λ (m : NewFragment). flag_of key m.fragment.compatibility) changes i h)

  -- Evidence of a changed network makes the release a network reset.
  reset_of_evidence :
      (c : Change)
      → In c evidence
      → c.impact ≡ Impact.network_reset
      → classification_of (compatibility_flags changes evidence) ≡ network_reset
  unfolding classification_of compatibility_flags
  reset_of_evidence c i h =
      rw (subst (λ k. has_impact k changes evidence ≡ true) h (evidence_has_impact c i))

empty_of_no_member : {A : Type 0} (xs : List A) → ((x : A) → In x xs → ⊥) → xs ≡ []
empty_of_no_member [] h = refl
empty_of_no_member (x ∷ xs) h = absurd (h x (inl refl))

-- An upgrade in place has no evidence, and no fragment that declares an impact.
pub in_place-no_impact :
    (changes : List NewFragment) (evidence : List Change)
    → classification_of (compatibility_flags changes evidence) ≡ in_place
    → (evidence ≡ [])
      × ((n : NewFragment) (key : Impact)
          → In n changes
          → flag_of key n.fragment.compatibility ≡ false)
in_place-no_impact changes evidence h = (
  empty_of_no_member evidence
      (λ c i. cc (evidence_has_impact changes evidence c i, no_impact changes evidence c.impact h)),
  λ n key i. elim (Bool-cases (flag_of key n.fragment.compatibility)) [
    | inl on ↦
        cc (fragment_has_impact changes evidence n key i on, no_impact changes evidence key h)
    | inr off ↦ off
  ],
)

module _ (s : Sources) (release_id : String) (previous : Identity) where
  check_previous_sound :
      {o : Option String}
      → check_previous s release_id (some previous) ≡ ok o
      → o ≡ given_revision previous.source_revision
  unfolding check_previous
  check_previous_sound h =
      let (key, _, h1) = bind_ok (version_key (str previous.release_id)) _ h in
      let (bound, _, h2) = bind_ok (version_key (str release_id)) _ h1 in
      let (_, h3) = require_ok (lt_key key bound) _ _ h2 in
      let (identity, _, h4) = bind_ok (tag_identity s.tools.git previous.release_id) _ h3 in
      let (_, h5) = require_ok _ _ (ok (given_revision previous.source_revision)) h4 in
      sym (ok-injective h5)

  prior_inputs_sound :
      (revision : String) {o : Option Inputs}
      → prior_inputs s (some revision) ≡ ok o
      → (before : Inputs) × (source_inputs s revision ≡ ok before) × (o ≡ some before)
  unfolding prior_inputs
  prior_inputs_sound revision h =
      let (before, read, h1) = bind_ok (source_inputs s revision) _ h in
      (before, read, sym (ok-injective h1))

  compare_revisions-prior :
      (revision : String) {c : Comparison s}
      → (previous.source_revision =s "") ≡ false
      → compare_revisions s release_id revision (some previous) ≡ ok c
      → (before : Inputs) × (source_inputs s previous.source_revision ≡ ok before)
        × (source_inputs s revision ≡ ok c.inputs)
        × (c.prior ≡ some before)
  unfolding compare_revisions
  compare_revisions-prior revision given h =
      let (o, checked, h1) = bind_ok (check_previous s release_id (some previous)) _ h in
      let (range, _, h2) = bind_ok (range_changes s.tools revision o) _ h1 in
      let (inputs, current, h3) = bind_ok (source_inputs s revision) _ h2 in
      let (prior, reading, h4) = bind_ok (prior_inputs s o) _ h3 in
      let at = subst (λ p. prior_inputs s p ≡ ok prior) (check_previous_sound checked) reading in
      let at_given =
        subst
          (λ (b : Bool).
            prior_inputs s (if b then none else some previous.source_revision) ≡ ok prior)
          given at in
      let (before, read, is_before) = prior_inputs_sound previous.source_revision at_given in
      let result : Comparison s = record {
        previous_revision = o;
        range = range;
        inputs = inputs;
        prior = prior;
      } in
      subst
        (λ (c : Comparison s).
          (before : Inputs) × (source_inputs s previous.source_revision ≡ ok before)
          × (source_inputs s revision ≡ ok c.inputs)
          × (c.prior ≡ some before))
        {x = result} (ok-injective h4) (before, read, current, is_before)

-- The record has the inputs of the previous revision and of its own one, which is that of its tag,
-- and a network that differs between them is a reset.
abbrev pub ResetsNetwork : Sources → String → Identity → ReleaseChanges → Type 0
ResetsNetwork s release_id previous r =
    (before : Inputs) × (source_inputs s previous.source_revision ≡ ok before)
    × (r.previous_source_inputs ≡ some before)
    × (source_inputs s r.source_revision ≡ ok r.source_inputs)
    × ((identity : Identity) × (tag_identity s.tools.git release_id ≡ ok identity)
        × (r.source_revision ≡ identity.source_revision))
    × (equal (value_at "network" before.values) (value_at "network" r.source_inputs.values) ≡ false
        → r.classification ≡ network_reset)

network_evidence :
    (changes : List NewFragment) (prior : Option Inputs) (before current : Inputs)
    → prior ≡ some before
    → equal (value_at "network" before.values) (value_at "network" current.values) ≡ false
    → classification_of (compatibility_flags changes (source_changes prior current)) ≡ network_reset
network_evidence changes prior before current is h = rw is (
    reset_of_evidence changes (source_changes (some before) current)
      (value_change before.values current.values "network" Impact.network_reset)
      ((source_changes-IsReported before current).values "network" Impact.network_reset (inl refl)
        h)
      refl)

-- A release upon a previous one with a revision, whose frozen network identity differs from that of the previous release is classified
-- as a network reset, whatever its fragments declare. The two are read at the previous revision and
-- at that of the tag.
pub build_changes-ResetsNetwork :
    (s : Sources) (release_id gateway_image : String) (previous : Identity)
    (frontend_image : Option String) {r : ReleaseChanges}
    → (previous.source_revision =s "") ≡ false
    → build_changes s release_id gateway_image (some previous) frontend_image ≡ ok r
    → ResetsNetwork s release_id previous r
unfolding build_changes
build_changes-ResetsNetwork s release_id gateway_image previous frontend_image given h =
    let (current, tagged, h1) = bind_ok (tag_identity s.tools.git release_id) _ h in
    let revision = current.source_revision in
    let (enabled, _, h2) = bind_ok (requires_notes s revision) _ h1 in
    let (_, h3) = require_ok enabled _ _ h2 in
    let (_, h4) = require_ok (full_match gateway_re gateway_image) _ _ h3 in
    let (c, at_c, h5) = bind_ok (compare_revisions s release_id revision (some previous)) _ h4 in
    let (_, _, h6) = bind_ok (check_frontend c.inputs frontend_image) _ h5 in
    let (before, read, own, is_before) =
      compare_revisions-prior s release_id previous revision given at_c in
    subst (ResetsNetwork s release_id previous) (ok-injective h6) (
      before,
      read,
      is_before,
      own,
      (current, tagged, refl),
      network_evidence c.range.changes c.prior before c.inputs is_before,
    )
