-- ===== src/Install/Archive.antt =====
-- `extract_release` of explorer/install_release.py, on the members that `tarfile` lists.
use usdb_explorer.Prelude.{
  ℕ, ◌+◌, ◌<>◌, String, Bool, true, false, if◌then◌else◌, not, ◌&&◌, ◌||◌, ◌=s◌, ltb, List, [], ◌∷◌,
  ◌++◌, any, contains, length,
}
use usdb_explorer.Prelude.Int.{ℤ, pos, negsuc}
use usdb_explorer.Python.Exn.{Result, ok, raise, value_error, os_error, ◌>>=◌, ◌>>◌, refuse}
use usdb_explorer.Python.Text.{split, starts_with, has_code}
use usdb_explorer.Install.{Node, file, dir, parts}

pub data Kind : Type 0 where
  regular directory special : Kind

pub record Member : Type 0 where
  pub name : String
  pub size : ℤ
  pub kind : Kind
  pub content : String

-- What has been written below the staging directory, by the parts of its path.
pub record Extracted : Type 0 where
  pub path : List String
  pub node : Node
  pub executable : Bool

abbrev pub heads_with : String → List String → Bool
heads_with id [] = false
heads_with id (part ∷ path) = part =s id

abbrev pub is_special : Kind → Bool
is_special special = true
is_special _ = false

abbrev pub is_file : Node → Bool
is_file (file content) = true
is_file _ = false

-- The first path is the second one or an ancestor of it.
unfoldable pub is_within : List String → List String → Bool
is_within [] path = true
is_within (p ∷ above) [] = false
is_within (p ∷ above) (q ∷ path) = (p =s q) && is_within above path

unfoldable pub is_unsafe : String → List String → Member → Bool
is_unsafe release_id seen member =
    not (heads_with release_id (parts member.name))
    || any (λ part. (part =s ".") || (part =s "..")) (split b'/' member.name)
    || starts_with member.name "/"
    || has_code b'\\' member.name
    || contains seen member.name
    || is_special member.kind

abbrev max_entries : ℕ
max_entries = 128

abbrev pub max_file : ℕ
max_file = 4194304

abbrev pub max_total : ℕ
max_total = 16777216

-- The sizes so far, with this member, whose name is the last of those that were seen.
unfoldable pub add_size : List String → ℕ → ℤ → Result ℕ
add_size seen total (negsuc n) = raise (value_error "release archive exceeds installer size limits")
add_size seen total (pos n) = do
  refuse (ltb 128 (length seen) || ltb max_file n || ltb max_total (total + n))
      "release archive exceeds installer size limits"
  ok (total + n)

-- A file stands where a directory is needed.
abbrev pub is_blocked : List String → List Extracted → Bool
is_blocked path tree = any (λ e. is_file e.node && is_within e.path path) tree

-- The path is there, as itself or as a directory of what is below it.
abbrev pub is_taken : List String → List Extracted → Bool
is_taken path tree = any (λ e. is_within path e.path) tree

abbrev entry_points : String → List String
entry_points release_id = (release_id <> "/usdb-public") ∷ (release_id <> "/usdb-explorer") ∷ []

abbrev pub dir_of : Member → Extracted
dir_of member = record { path = parts member.name; node = dir; executable = true }

-- `target.chmod(0o755 if member.name in {…} else 0o644)`
abbrev pub file_of : String → Member → Extracted
file_of release_id member = record {
  path = parts member.name;
  node = file member.content;
  executable = contains (entry_points release_id) member.name;
}

-- `target.mkdir(parents=True, exist_ok=True)`, or the copy of a file that must not be there.
unfoldable pub write_member : String → Kind → Member → List Extracted → Result (List Extracted)
write_member release_id directory member tree =
    if is_blocked (parts member.name) tree
    then raise (os_error "a file is no directory")
    else ok (tree ++ (dir_of member ∷ []))
write_member release_id _ member tree =
    if is_blocked (parts member.name) tree || is_taken (parts member.name) tree
    then raise (os_error "the file exists")
    else ok (tree ++ (file_of release_id member ∷ []))

-- What the loop over the members keeps.
pub record Progress : Type 0 where
  pub seen : List String
  pub total : ℕ
  pub tree : List Extracted

unfoldable pub extract_member : String → Progress → Member → Result Progress
extract_member release_id p member = do
  refuse (is_unsafe release_id p.seen member) "release archive contains unsafe or duplicate entries"
  total ← add_size (member.name ∷ p.seen) p.total member.size
  tree ← write_member release_id member.kind member p.tree
  ok (record { seen = member.name ∷ p.seen; total = total; tree = tree })

unfoldable pub extract_members : String → Progress → List Member → Result Progress
extract_members release_id p [] = ok p
extract_members release_id p (member ∷ members) = do
  next ← extract_member release_id p member
  extract_members release_id next members

unfoldable pub extract_release : String → List Member → Result Progress
extract_release release_id members =
    extract_members release_id (record { seen = []; total = 0; tree = [] }) members
