-- ===== src/Install/Verified.antt =====
-- What `verify_release` of explorer/install_release.py has found of a release that it accepts.
use usdb_explorer.Prelude.{
  String, ◌≡◌, sym, ap, subst, ◌∙◌, inl, inr, Bool, true, false, not, ◌&&◌, ◌||◌, ◌=s◌, List, [],
  ◌∷◌, Option, none, some, In, all, any, contains, arith, Bool-cases, eq_iff, some-injective,
}
use usdb_explorer.Prelude.Members.{contains-In, all-In}
use usdb_explorer.Python.Value.{Value, Fields, field, end, obj, arr, str, lookup, has, keys}
use usdb_explorer.Python.Exn.{required_true, Result, ok, bind_ok, require_ok, refuse_ok, get}
use usdb_explorer.Python.Exn.Loops.{ok-injective}
use usdb_explorer.Python.Regex.{full_match}
use usdb_explorer.Install.{Node, file, dir, link, is_link, sha256_re}
use usdb_explorer.Install.Verify.{
  Directory, find_node, manifest_name, content_of, required_files, file_names, same_names,
  check_content, check_files, read_manifest, verify_release, dict_of, same_manifest, links_to,
}

module _ (loads : String → Result Value) (sha256 : String → String) where
  -- The bytes of the manifest name the files of the tree, all of them and no others, by their
  -- digests, and the tree has no symbolic link.
  pub record IsVerified (d : Directory) (bytes : String) : Type 0 where
    pub of_bytes : find_node manifest_name d.entries ≡ some (file bytes)
    pub manifest : Value
    pub of_manifest : loads bytes ≡ ok manifest
    pub files : Fields
    pub of_files : get manifest "files" ≡ ok (obj files)
    pub required : (name : String) → In name required_files → has name files ≡ true
    pub named :
        (name : String) → In name (file_names d.entries) → In name (manifest_name ∷ keys files)
    pub present : (name : String) → In name (keys files) → In name (file_names d.entries)
    pub intact :
        (name : String) (expected : Value)
        → lookup name files ≡ some expected
        → (content : String) × (find_node name d.entries ≡ some (file content))
          × (expected ≡ str (sha256 content))
    pub no_links : (e : String × Node) → In e d.entries → is_link e.1 ≡ false

  content_of_sound :
      (o : Option Node) {content : String} → content_of o ≡ ok content → o ≡ some (file content)
  content_of_sound none h = cc
  content_of_sound (some (file c)) h = ap (λ s. some (file s)) (ok-injective h)
  content_of_sound (some dir) h = cc
  content_of_sound (some (link t)) h = cc

  check_content_sound :
      (expected : Value) (node : Option Node) {u : Unit {0}}
      → check_content loads sha256 expected node ≡ ok u
      → (content : String) × (node ≡ some (file content)) × (expected ≡ str (sha256 content))
  unfolding check_content
  check_content_sound (str expected) found h =
      let (_, h1) = require_ok (full_match sha256_re expected) _ _ h in
      let (content, at, h2) = bind_ok (content_of found) _ h1 in
      (
        content,
        content_of_sound found at,
        ap str (sym ((eq_iff (sha256 content) expected).0 (required_true _ _ h2))),
      )
  check_content_sound (obj x) found h = cc
  check_content_sound (arr x) found h = cc
  check_content_sound (Value.bool x) found h = cc
  check_content_sound (Value.int x) found h = cc
  check_content_sound (Value.float x) found h = cc
  check_content_sound Value.null found h = cc

  check_files_sound :
      (d : Directory) (files : Fields) {u : Unit {0}} (name : String) (expected : Value)
      → check_files loads sha256 d files ≡ ok u
      → lookup name files ≡ some expected
      → (content : String) × (find_node name d.entries ≡ some (file content))
        × (expected ≡ str (sha256 content))
  unfolding check_files lookup
  check_files_sound d end name expected h at = cc
  check_files_sound d (field k v rest) name expected h at =
      let (_, first, h1) = bind_ok (check_content loads sha256 v (find_node k d.entries)) _ h in
      let (content, node, same) = check_content_sound v (find_node k d.entries) first in
      elim (Bool-cases (k =s name)) [
        | inl e ↦ (
          content,
          subst (λ n. find_node n d.entries ≡ some (file content)) ((eq_iff k name).0 e) node,
          sym (some-injective (rw e at at)) ∙ same,
        )
        | inr e ↦ check_files_sound d rest name expected h1 (rw e at at)
      ]

  no_link-In :
      (entries : List (String × Node)) (e : String × Node)
      → any (λ x. is_link x.1) entries ≡ false
      → In e entries
      → is_link e.1 ≡ false
  no_link-In [] e h i = elim i [ ]
  no_link-In (x ∷ entries) e h (inl same) =
      subst (λ y. is_link y.1 ≡ false) (sym same) (ground arith)
  no_link-In (x ∷ entries) e h (inr i) = no_link-In entries e (ground arith) i

  -- The parts that the manifest alone decides.
  record IsManifest (d : Directory) (bytes : String) (files : Fields) : Type 0 where
    of_bytes : find_node manifest_name d.entries ≡ some (file bytes)
    manifest : Value
    of_manifest : loads bytes ≡ ok manifest
    of_files : get manifest "files" ≡ ok (obj files)
    required : (name : String) → In name required_files → has name files ≡ true

  dict_of_sound : (v : Value) {files : Fields} → dict_of v ≡ ok files → v ≡ obj files
  dict_of_sound (obj d) h = ap obj (ok-injective h)
  dict_of_sound (str x) h = cc
  dict_of_sound (arr x) h = cc
  dict_of_sound (Value.bool x) h = cc
  dict_of_sound (Value.int x) h = cc
  dict_of_sound (Value.float x) h = cc
  dict_of_sound Value.null h = cc

  read_manifest-IsManifest :
      (d : Directory) (release_id : String) (expected : Option String) {bytes : String}
      {files : Fields}
      → read_manifest loads sha256 d release_id expected ≡ ok (bytes, files)
      → IsManifest d bytes files
  unfolding read_manifest
  read_manifest-IsManifest d release_id expected h =
      let (_, h1) =
        refuse_ok (d.root_is_link || links_to (find_node manifest_name d.entries)) _ _ h in
      let (bytes, at_bytes, h2) = bind_ok (content_of (find_node manifest_name d.entries)) _ h1 in
      let (_, h3) = require_ok (same_manifest expected bytes) _ _ h2 in
      let (manifest, at_manifest, h4) = bind_ok (loads bytes) _ h3 in
      let (schema, _, h5) = bind_ok (get manifest "schema_version") _ h4 in
      let (_, h6) = require_ok _ _ _ h5 in
      let (version, _, h7) = bind_ok (get manifest "version") _ h6 in
      let (_, h8) = require_ok _ _ _ h7 in
      let (listed, at_listed, h9) = bind_ok (get manifest "files") _ h8 in
      let (files, at_files, h10) = bind_ok (dict_of listed) _ h9 in
      let (required, h11) = require_ok (all (λ name. has name files) required_files) _ _ h10 in
      subst (λ p. IsManifest d p.0 p.1) (ok-injective h11)
        (record {
          of_bytes = content_of_sound (find_node manifest_name d.entries) at_bytes;
          manifest = manifest;
          of_manifest = at_manifest;
          of_files = at_listed ∙ ap ok (dict_of_sound listed at_files);
          required = λ name i. all-In (λ n. has n files) required_files required i;
        })

  both : (a b : Bool) → (a && b) ≡ true → (a ≡ true) × (b ≡ true)
  both a b h = (ground arith, ground arith)

  -- What `verify_release` accepts is intact: the manifest and the tree agree, file by file.
  pub verify_release-IsVerified :
      (d : Directory) (release_id : String) (expected : Option String) {bytes : String}
      → verify_release loads sha256 d release_id expected ≡ ok bytes
      → IsVerified d bytes
  unfolding verify_release same_names
  verify_release-IsVerified d release_id expected h =
      let ((bytes, files), at_manifest, h1) =
        bind_ok (read_manifest loads sha256 d release_id expected) _ h in
      let (_, h2) = refuse_ok _ _ _ h1 in
      let (plain, h3) =
        refuse_ok (any (λ e. is_link e.1) d.entries || not (d.can_execute "usdb-public")) _ _ h2 in
      let (same, h4) = require_ok (same_names (file_names d.entries) (keys files)) _ _ h3 in
      let (_, checked, h5) = bind_ok (check_files loads sha256 d files) _ h4 in
      let m = read_manifest-IsManifest d release_id expected at_manifest in
      let (here, there) =
        both (all (contains (manifest_name ∷ keys files)) (file_names d.entries)) _ same in
      subst (IsVerified d) (ok-injective h5) (record {
        of_bytes = m.of_bytes;
        manifest = m.manifest;
        of_manifest = m.of_manifest;
        files = files;
        of_files = m.of_files;
        required = m.required;
        named = λ name i.
            contains-In (manifest_name ∷ keys files) name
              (all-In (contains (manifest_name ∷ keys files)) (file_names d.entries) here i);
        present = λ name i.
            contains-In (file_names d.entries) name
              (all-In (contains (file_names d.entries)) (manifest_name ∷ keys files) there (inr i));
        intact = λ name v at. check_files_sound d files name v checked at;
        no_links = λ e i. no_link-In d.entries e (left_false _ _ plain) i;
      })
    where
      left_false : (a b : Bool) → (a || b) ≡ false → a ≡ false
      left_false a b h = ground arith
