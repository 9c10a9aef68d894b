-- ===== src/Notes/Fragment/Canonical.antt =====
-- What `validate_fragment` accepts, and that its result is a fragment of the same value.
use usdb_explorer.Prelude.{
  ◌≡◌, refl, subst, String, Bool, true, false, not, ◌&&◌, List, [], ◌∷◌, arith, all, contains, ◌+◌,
  ℕ,
}
use usdb_explorer.Python.Value.{Value, Fields, null, obj, lookup, keys, equal}
use usdb_explorer.Python.Exn.{ok, subscript, bind_ok, require_ok}
use usdb_explorer.Python.Exn.Loops.{ok-injective}
use usdb_explorer.Python.Text.{lt_str, lt_str-StrictOrder, starts_with}
use usdb_explorer.Python.Regex.{full_match}
use usdb_explorer.Python.Order.{StrictOrder-IsWeak}
use usdb_explorer.Python.Order.Sorting.{IsSorted, sort-IsSorted, sort_of_IsSorted}
use usdb_explorer.Notes.Fragment.{
  Fragment, Compatibility, require_text, require_text_array, require_exact_keys, require_https,
  only_booleans, validate_header, validate_scopes, validate_details, validate_references,
  validate_compatibility, validate_fragment, fragment_value, fragment_keys, compatibility_value,
  compatibility_keys, flag, change_id_re, change_types, known_scopes,
}
use usdb_explorer.Notes.Fragment.Texts.{
  IsText, IsTextArray, require_text_sound, require_text_complete, require_text_array_sound,
  require_text_array_complete, IsTextArray-sort, all-sort,
}

abbrev pub is_https : String → Bool
is_https reference = starts_with reference "https://"

-- What the schema asks of a fragment.
pub record IsFragment (f : Fragment) : Type 0 where
  pub change_id_text : IsText 96 f.change_id
  pub kebab_case : full_match change_id_re f.change_id ≡ true
  pub type_text : IsText 24 f.change_type
  pub known_type : contains change_types f.change_type ≡ true
  pub scope_texts : IsTextArray false 8 40 f.scopes
  pub scopes_known : all (contains known_scopes) f.scopes ≡ true
  pub scopes_sorted : IsSorted lt_str f.scopes
  pub summary_text : IsText 160 f.summary
  pub detail_texts : IsTextArray false 12 1000 f.details
  pub action_texts : IsTextArray true 8 1000 f.operator_actions
  pub reference_texts : IsTextArray true 12 500 f.references
  pub references_https : all is_https f.references ≡ true
  pub references_sorted : IsSorted lt_str f.references
  pub not_redundant : not (f.compatibility.network_reset && f.compatibility.data_rebuild) ≡ true

require_https_sound :
    (source : String) (index : ℕ) (xs : List String)
    → require_https source index xs ≡ ok tt
    → all is_https xs ≡ true
unfolding require_https
require_https_sound source index [] h = refl
require_https_sound source index (x ∷ xs) h =
    let (first, rest) = require_ok (is_https x) _ (require_https source (index + 1) xs) h in
    rw first (require_https_sound source (index + 1) xs rest)

require_https_complete :
    (source : String) (index : ℕ) (xs : List String)
    → all is_https xs ≡ true
    → require_https source index xs ≡ ok tt
unfolding require_https
require_https_complete source index [] h = refl
require_https_complete source index (x ∷ xs) h =
    ground (arith, require_https_complete source (index + 1) xs)

validate_compatibility_sound :
    (v : Value) (source : String) {c : Compatibility}
    → validate_compatibility v source ≡ ok c
    → not (c.network_reset && c.data_rebuild) ≡ true
unfolding validate_compatibility
validate_compatibility_sound (obj d) source h =
    let (_, _, h0) = bind_ok (require_exact_keys d compatibility_keys _) _ h in
    let (_, h1) = require_ok _ _ _ h0 in
    let (a, _, h2) = bind_ok (flag (obj d) "config_change") _ h1 in
    let (b, _, h3) = bind_ok (flag (obj d) "data_rebuild") _ h2 in
    let (r, _, h4) = bind_ok (flag (obj d) "network_reset") _ h3 in
    let (s, _, h5) = bind_ok (flag (obj d) "restart_required") _ h4 in
    let result : Compatibility = record {
      config_change = a;
      data_rebuild = b;
      network_reset = r;
      restart_required = s;
    } in
    let (fine, h6) = require_ok (not (r && b)) _ (ok result) h5 in
    subst (λ (c : Compatibility). not (c.network_reset && c.data_rebuild) ≡ true) {x = result}
      (ok-injective h6) fine
validate_compatibility_sound null source h = cc
validate_compatibility_sound _ source h = cc

record IsHeader (change_id change_type : String) : Type 0 where
  change_id_text : IsText 96 change_id
  kebab_case : full_match change_id_re change_id ≡ true
  type_text : IsText 24 change_type
  known_type : contains change_types change_type ≡ true

validate_header_sound :
    (value : Fields) (source : String) {h : String × String}
    → validate_header value source ≡ ok h
    → IsHeader h.0 h.1
unfolding validate_header
validate_header_sound value source h =
    let (_, _, h0) = bind_ok (require_exact_keys value fragment_keys source) _ h in
    let (version, _, h1) = bind_ok (subscript (obj value) "schema_version") _ h0 in
    let (_, h2) = require_ok _ _ _ h1 in
    let (v1, _, h3) = bind_ok (subscript (obj value) "change_id") _ h2 in
    let (change_id, t1, h4) = bind_ok (require_text v1 _ 96) _ h3 in
    let (kebab, h5) = require_ok _ _ _ h4 in
    let (v2, _, h6) = bind_ok (subscript (obj value) "type") _ h5 in
    let (change_type, t2, h7) = bind_ok (require_text v2 _ 24) _ h6 in
    let (known, h8) =
      require_ok (contains change_types change_type) _ (ok (change_id, change_type)) h7 in
    subst (λ (p : String × String). IsHeader p.0 p.1) {x = (change_id, change_type)}
      (ok-injective h8)
      (record {
        change_id_text = (require_text_sound v1 _ 96 t1).1;
        kebab_case = kebab;
        type_text = (require_text_sound v2 _ 24 t2).1;
        known_type = known;
      })

record AreScopes (scopes : List String) (summary : String) : Type 0 where
  scope_texts : IsTextArray false 8 40 scopes
  scopes_known : all (contains known_scopes) scopes ≡ true
  summary_text : IsText 160 summary

validate_scopes_sound :
    (value : Fields) (source : String) {s : List String × String}
    → validate_scopes value source ≡ ok s
    → AreScopes s.0 s.1
unfolding validate_scopes
validate_scopes_sound value source h =
    let (v, _, h1) = bind_ok (subscript (obj value) "scopes") _ h in
    let (scopes, t, h2) = bind_ok (require_text_array v _ false 8 40) _ h1 in
    let (known, h3) = require_ok _ _ _ h2 in
    let (w, _, h4) = bind_ok (subscript (obj value) "summary") _ h3 in
    let (summary, u, h5) = bind_ok (require_text w _ 160) _ h4 in
    subst (λ (p : List String × String). AreScopes p.0 p.1) {x = (scopes, summary)}
      (ok-injective h5)
      (record {
        scope_texts = require_text_array_sound v _ _ _ _ t;
        scopes_known = known;
        summary_text = (require_text_sound w _ 160 u).1;
      })

AreDetails : List String × List String → Type 0
AreDetails p = IsTextArray false 12 1000 p.0 × IsTextArray true 8 1000 p.1

validate_details_sound :
    (value : Fields) (source : String) {d : List String × List String}
    → validate_details value source ≡ ok d
    → AreDetails d
unfolding validate_details AreDetails
validate_details_sound value source h =
    let (v, _, h1) = bind_ok (subscript (obj value) "details") _ h in
    let (details, t, h2) = bind_ok (require_text_array v _ false 12 1000) _ h1 in
    let (w, _, h3) = bind_ok (subscript (obj value) "operator_actions") _ h2 in
    let (actions, u, h4) = bind_ok (require_text_array w _ true 8 1000) _ h3 in
    subst AreDetails {x = (details, actions)} (ok-injective h4)
      (require_text_array_sound v _ _ _ _ t, require_text_array_sound w _ _ _ _ u)

AreReferences : List String → Type 0
AreReferences xs = IsTextArray true 12 500 xs × (all is_https xs ≡ true)

validate_references_sound :
    (value : Fields) (source : String) {xs : List String}
    → validate_references value source ≡ ok xs
    → AreReferences xs
unfolding validate_references AreReferences
validate_references_sound value source h =
    let (v, _, h1) = bind_ok (subscript (obj value) "references") _ h in
    let (xs, t, h2) = bind_ok (require_text_array v _ true 12 500) _ h1 in
    let (_, https, h3) = bind_ok (require_https source 0 xs) _ h2 in
    subst AreReferences (ok-injective h3)
      (require_text_array_sound v _ _ _ _ t, require_https_sound source 0 xs https)

-- An accepted document gives a fragment that meets the schema.
pub validate_fragment-IsFragment :
    (value : Fields) (source : String) {f : Fragment}
    → validate_fragment value source ≡ ok f
    → IsFragment f
unfolding validate_fragment AreDetails AreReferences
validate_fragment-IsFragment value source h =
    let (header, at_header, h1) = bind_ok (validate_header value source) _ h in
    let (scopes, at_scopes, h2) = bind_ok (validate_scopes value source) _ h1 in
    let (details, at_details, h3) = bind_ok (validate_details value source) _ h2 in
    let (references, at_references, h4) = bind_ok (validate_references value source) _ h3 in
    let (v, _, h5) = bind_ok (subscript (obj value) "compatibility") _ h4 in
    let (compatibility, at_v, h6) = bind_ok (validate_compatibility v source) _ h5 in
    let head = validate_header_sound value source at_header in
    let scope = validate_scopes_sound value source at_scopes in
    let detail = validate_details_sound value source at_details in
    let reference = validate_references_sound value source at_references in
    subst IsFragment (ok-injective h6) (record {
      change_id_text = head.change_id_text;
      kebab_case = head.kebab_case;
      type_text = head.type_text;
      known_type = head.known_type;
      scope_texts = IsTextArray-sort _ _ _ scopes.0 scope.scope_texts;
      scopes_known = all-sort (contains known_scopes) scopes.0 scope.scopes_known;
      scopes_sorted = sort-IsSorted (StrictOrder-IsWeak lt_str-StrictOrder) scopes.0;
      summary_text = scope.summary_text;
      detail_texts = detail.0;
      action_texts = detail.1;
      reference_texts = IsTextArray-sort _ _ _ references reference.0;
      references_https = all-sort is_https references reference.1;
      references_sorted = sort-IsSorted (StrictOrder-IsWeak lt_str-StrictOrder) references;
      not_redundant = validate_compatibility_sound v source at_v;
    })

exact_fragment_keys :
    (f : Fragment) (source : String)
    → require_exact_keys (fragment_value f) fragment_keys source ≡ ok tt
unfolding require_exact_keys keys
exact_fragment_keys f source = refl

validate_compatibility_complete :
    (c : Compatibility) (source : String)
    → not (c.network_reset && c.data_rebuild) ≡ true
    → validate_compatibility (compatibility_value c) source ≡ ok c
unfolding validate_compatibility require_exact_keys keys only_booleans subscript lookup
validate_compatibility_complete c source h = rw h

-- A fragment that meets the schema is read back from its dict as it is.
pub validate_fragment_complete :
    (f : Fragment) (source : String)
    → IsFragment f
    → validate_fragment (fragment_value f) source ≡ ok f
unfolding validate_fragment validate_header validate_scopes validate_details validate_references
    subscript lookup equal
validate_fragment_complete f source p = rw (
  exact_fragment_keys f source,
  require_text_complete f.change_id _ 96 p.change_id_text,
  p.kebab_case,
  require_text_complete f.change_type _ 24 p.type_text,
  p.known_type,
  require_text_array_complete _ false 8 40 f.scopes p.scope_texts,
  p.scopes_known,
  require_text_complete f.summary _ 160 p.summary_text,
  require_text_array_complete _ false 12 1000 f.details p.detail_texts,
  require_text_array_complete _ true 8 1000 f.operator_actions p.action_texts,
  require_text_array_complete _ true 12 500 f.references p.reference_texts,
  require_https_complete source 0 f.references p.references_https,
  validate_compatibility_complete f.compatibility source p.not_redundant,
  sort_of_IsSorted lt_str f.scopes p.scopes_sorted,
  sort_of_IsSorted lt_str f.references p.references_sorted,
)

-- The result of a validation, written as a document, is validated to the same fragment.
pub validate_fragment-fragment_value :
    (value : Fields) (source other : String) {f : Fragment}
    → validate_fragment value source ≡ ok f
    → validate_fragment (fragment_value f) other ≡ ok f
validate_fragment-fragment_value value source other {f} h =
    validate_fragment_complete f other (validate_fragment-IsFragment value source h)
