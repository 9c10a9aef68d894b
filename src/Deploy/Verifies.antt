-- ===== src/Deploy/Verifies.antt =====
-- `verify` of explorer/usdb_public.py accepts what `prepare` writes.
use usdb_explorer.Prelude.{
  String, ◌≡◌, refl, sym, ap, subst, ◌∙◌, inl, inr, Bool, true, false, not, ◌&&◌, ◌=s◌, List, [],
  ◌∷◌, ◌++◌, Option, some, In, all, contains, distinct, arith, Bool-cases, eq_iff,
}
use usdb_explorer.Python.Value.{Value, Fields, field, end, obj, str, has, lookup, equal}
use usdb_explorer.Python.Exn.{Result, ok, bind_ok, ◌>>=◌, ◌>>◌, require, get, get_or, subscript}
use usdb_explorer.Python.Exn.Loops.{bind_step}
use usdb_explorer.Config.Load.{Loaded}
use usdb_explorer.Install.{Node, file, dir, link}
use usdb_explorer.Install.Verify.{find_node, content_of, file_names}
use usdb_explorer.Deploy.{
  Tree, required_names, has_required, check_hash, check_hashes, verify_files, read_json, verify,
}
use usdb_explorer.Python.Text.{lt_str}
use usdb_explorer.Deploy.Json.{sort_keys, sort_fields, insert_field}
use usdb_explorer.Deploy.Prepare.{file_hashes, written, own_files, manifest_of, with_manifest}

abbrev pub names : Tree → List String
names [] = []
names ((name, node) ∷ more) = name ∷ names more

-- What the files of a generation are found by.
listed :
    (files : Tree) (name : String) (n : Node)
    → In (name, n) files
    → contains (names files) name ≡ true
listed [] name n i = elim i [ ]
listed ((k, x) ∷ files) name n (inl e) =
    let same = (eq_iff k name).1 (sym (ap (λ p. p.0) e)) in ground arith
listed ((k, x) ∷ files) name n (inr i) = let found = listed files name n i in ground arith

find_node-In :
    (files : Tree) (name : String) (n : Node)
    → distinct (names files) ≡ true
    → In (name, n) files
    → find_node name files ≡ some n
unfolding find_node
find_node-In [] name n d i = elim i [ ]
find_node-In ((k, x) ∷ files) name n d (inl e) =
    rw ((eq_iff k name).1 (sym (ap (λ p. p.0) e))) (ap some (sym (ap (λ p. p.1) e)))
find_node-In ((k, x) ∷ files) name n d (inr i) = elim (Bool-cases (k =s name)) [
  | inl e ↦
      let found = listed files name n i in
      let free : (not (contains (names files) name) && distinct (names files)) ≡ true =
        subst (λ z. (not (contains (names files) z) && distinct (names files)) ≡ true)
          ((eq_iff k name).0 e) d in
      ground arith
  | inr e ↦ rw e (find_node-In files name n (ground arith) i)
]

find_node-append :
    (files more : Tree) (name : String) {n : Node}
    → find_node name files ≡ some n
    → find_node name (files ++ more) ≡ some n
unfolding find_node
find_node-append [] more name h = cc
find_node-append ((k, x) ∷ files) more name h = elim (Bool-cases (k =s name)) [
  | inl e ↦ rw e (rw e at h)
  | inr e ↦ rw e (find_node-append files more name (rw e at h))
]

find_node_last :
    (files : Tree) (name : String) (n : Node)
    → contains (names files) name ≡ false
    → find_node name (files ++ ((name, n) ∷ [])) ≡ some n
unfolding find_node
find_node_last [] name n h = rw ((eq_iff name name).1 refl) refl
find_node_last ((k, x) ∷ files) name n h = elim (Bool-cases (k =s name)) [
  | inl e ↦ ground arith
  | inr e ↦ rw e (find_node_last files name n (ground arith))
]

passes :
    {A : Type 0} (b c : Bool) (m k : String) (r : Result (Unit {0})) (v : A)
    → b ≡ true
    → c ≡ true
    → r ≡ ok tt
    → (require b m >> (require c k >> (r >> ok v))) ≡ ok v
passes true true m k r v p q h = bind_step r _ h
passes true false m k r v p q h = cc
passes false c m k r v p q h = cc

check_hash_file :
    (loads : String → Result Value) (sha256 : String → String) (o : Option Node) (c : String)
    → o ≡ some (file c)
    → check_hash loads sha256 o (str (sha256 c)) ≡ ok tt
unfolding check_hash
check_hash_file loads sha256 o c h =
    subst (λ x. check_hash loads sha256 x (str (sha256 c)) ≡ ok tt) (sym h)
      (rw ((eq_iff (sha256 c) (sha256 c)).1 refl) refl)

has_behind :
    (k : String) (v : Value) (d : Fields) (name : String)
    → has name d ≡ true
    → has name (field k v d) ≡ true
unfolding lookup
has_behind k v d name h = elim (Bool-cases (k =s name)) [
  | inl e ↦ rw (e, has) refl
  | inr e ↦ rw (e, has) h
]

-- A name in a dict where a key has been put in its place.
has_new :
    (k : String) (v : Value) (d : Fields) (name : String)
    → (k =s name) ≡ true
    → has name (insert_field k v d) ≡ true
unfolding insert_field lookup
has_new k v end name e = rw (e, has) refl
has_new k v (field j w rest) name e = elim (Bool-cases (lt_str j k)) [
  | inl before ↦ rw before (has_behind j w (insert_field k v rest) name (has_new k v rest name e))
  | inr behind ↦ rw behind (rw (e, has) refl)
]

has_kept :
    (k : String) (v : Value) (d : Fields) (name : String)
    → has name d ≡ true
    → has name (insert_field k v d) ≡ true
unfolding insert_field lookup
has_kept k v end name h = cc
has_kept k v (field j w rest) name h = elim (Bool-cases (lt_str j k)) [
  | inr behind ↦ rw behind (has_behind k v (field j w rest) name h)
  | inl before ↦ rw before (elim (Bool-cases (j =s name)) [
    | inl e ↦ rw (e, has) refl
    | inr e ↦
        has_behind j w (insert_field k v rest) name (has_kept k v rest name (rw (e, has) at h))
  ])
]

-- The hashes of the files, by the names in their order.
abbrev sorted_hashes : (String → String) → Tree → Fields
sorted_hashes sha256 files = sort_fields (file_hashes sha256 files)

has-sorted_hashes :
    (sha256 : String → String) (files : Tree) (name : String)
    → contains (file_names files) name ≡ true
    → has name (sorted_hashes sha256 files) ≡ true
unfolding file_hashes sort_fields sort_keys
has-sorted_hashes sha256 [] name h = cc
has-sorted_hashes sha256 ((k, file c) ∷ files) name h = elim (Bool-cases (k =s name)) [
  | inl e ↦ has_new k (str (sha256 c)) (sorted_hashes sha256 files) name e
  | inr e ↦
      has_kept k (str (sha256 c)) (sorted_hashes sha256 files) name
        (has-sorted_hashes sha256 files name (ground arith))
]
has-sorted_hashes sha256 ((k, dir) ∷ files) name h = has-sorted_hashes sha256 files name h
has-sorted_hashes sha256 ((k, link t) ∷ files) name h = has-sorted_hashes sha256 files name h

module _ (loads : String → Result Value) (dumps : Value → String) (sha256 : String → String) where
  check_hashes-insert_field :
      (full : Tree) (k : String) (v : Value) (d : Fields)
      → check_hash loads sha256 (find_node k full) v ≡ ok tt
      → check_hashes loads sha256 full d ≡ ok tt
      → check_hashes loads sha256 full (insert_field k v d) ≡ ok tt
  unfolding check_hashes insert_field
  check_hashes-insert_field full k v end first rest =
      bind_step (check_hash loads sha256 (find_node k full) v) _ first
  check_hashes-insert_field full k v (field j w more) first rest = elim (Bool-cases (lt_str j k)) [
    | inr behind ↦
        rw behind (bind_step (check_hash loads sha256 (find_node k full) v) _ first ∙ rest)
    | inl before ↦
        let (_, at_w, later) = bind_ok (check_hash loads sha256 (find_node j full) w) _ rest in
        rw before (
          bind_step (check_hash loads sha256 (find_node j full) w) _ at_w
          ∙ check_hashes-insert_field full k v more first later)
  ]

  verify_files-insert_field :
      (full : Tree) (k : String) (v : Value) (d : Fields)
      → verify_files loads sha256 full (obj (insert_field k v d))
        ≡ check_hashes loads sha256 full (insert_field k v d)
  unfolding verify_files insert_field
  verify_files-insert_field full k v end = refl
  verify_files-insert_field full k v (field j w more) = elim (Bool-cases (lt_str j k)) [
    | inl before ↦ rw before refl
    | inr behind ↦ rw behind refl
  ]

  verify_files-sorted_hashes :
      (full : Tree) (k c : String) (rest : Tree)
      → check_hashes loads sha256 full (sorted_hashes sha256 ((k, file c) ∷ rest)) ≡ ok tt
      → verify_files loads sha256 full (obj (sorted_hashes sha256 ((k, file c) ∷ rest))) ≡ ok tt
  unfolding file_hashes sort_fields sort_keys
  verify_files-sorted_hashes full k c rest h =
      verify_files-insert_field full k (str (sha256 c)) (sorted_hashes sha256 rest) ∙ h

  check_hashes-sorted_hashes :
      (full part : Tree)
      → ((name c : String) → In (name, file c) part → find_node name full ≡ some (file c))
      → check_hashes loads sha256 full (sorted_hashes sha256 part) ≡ ok tt
  unfolding file_hashes sort_fields sort_keys check_hashes
  check_hashes-sorted_hashes full [] found = refl
  check_hashes-sorted_hashes full ((name, file c) ∷ part) found =
      check_hashes-insert_field full name (str (sha256 c)) (sorted_hashes sha256 part)
        (check_hash_file loads sha256 (find_node name full) c (found name c (inl refl)))
        (check_hashes-sorted_hashes full part (λ k x i. found k x (inr i)))
  check_hashes-sorted_hashes full ((name, dir) ∷ part) found =
      check_hashes-sorted_hashes full part (λ k x i. found k x (inr i))
  check_hashes-sorted_hashes full ((name, link t) ∷ part) found =
      check_hashes-sorted_hashes full part (λ k x i. found k x (inr i))

  has_required-sorted_hashes :
      (files : Tree) (required : List String)
      → all (contains (file_names files)) required ≡ true
      → all (λ name. has name (sorted_hashes sha256 files)) required ≡ true
  has_required-sorted_hashes files [] h = refl
  has_required-sorted_hashes files (name ∷ required) h =
      let first = has-sorted_hashes sha256 files name (ground arith) in
      let rest = has_required-sorted_hashes files required (ground arith) in ground arith

  -- What `prepare` writes is accepted by `verify` at the location it was written for, with the
  -- manifest read back, if the renderers add the files that are required, no two files have one
  -- name, and `json.loads` gives back what `json.dumps` has written of the manifest with its keys in
  -- their order.
  pub verify-with_manifest :
      (location : String) (version : Value) (loaded : Loaded) (lock credentials : Value)
      (documents : Tree)
      → let files = own_files loads dumps sha256 loaded lock credentials ++ documents in
        let manifest = sort_keys (manifest_of loads dumps sha256 location version files) in
        distinct ("deployment.json" ∷ names files) ≡ true
        → all (contains (file_names files)) required_names ≡ true
        → loads (dumps manifest) ≡ ok manifest
        → verify loads sha256 location (with_manifest loads dumps sha256 location version files)
          ≡ ok manifest
  unfolding verify read_json with_manifest own_files get get_or subscript lookup equal has_required
      verify_files file_hashes sort_keys sort_fields insert_field lt_str
  verify-with_manifest location version loaded lock credentials documents alone complete reads =
      let files : Tree = own_files loads dumps sha256 loaded lock credentials ++ documents in
      let manifest : Value = sort_keys (manifest_of loads dumps sha256 location version files) in
      let full : Tree = with_manifest loads dumps sha256 location version files in
      let at_manifest : find_node "deployment.json" full ≡ some (file (dumps manifest)) =
        find_node_last files "deployment.json" (file (dumps manifest)) (ground arith) in
      let intact = check_hashes-sorted_hashes full files (λ name c i.
        find_node-append files _ name (find_node-In files name (file c) (ground arith) i)) in
      bind_step (read_json loads sha256 full "deployment.json") _
        (ap (λ o. content_of o >>= loads) at_manifest ∙ reads)
      ∙ passes (location =s location)
          (all (λ name. has name (sorted_hashes sha256 files)) required_names) _ _
          (verify_files loads sha256 full (obj (sorted_hashes sha256 files))) manifest
          ((eq_iff location location).1 refl)
          (has_required-sorted_hashes files required_names complete)
          (verify_files-sorted_hashes full "credentials.json" (dumps (sort_keys credentials))
            (("config.json", written loads dumps sha256 (obj loaded.value))
              ∷ ("identity.json", written loads dumps sha256 loaded.identity)
              ∷ ("images.lock.json", written loads dumps sha256 lock)
              ∷ documents)
            intact)
