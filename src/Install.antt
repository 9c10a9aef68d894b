-- ===== src/Install.antt =====
-- explorer/install_release.py: the entries of an archive and of a directory, and its names.
use usdb_explorer.Prelude.{String, Bool, true, false, ◌||◌, ◌&&◌, ◌=s◌, List, [], ◌∷◌, not, keep}
use usdb_explorer.Python.Regex.{
  Regex, class, then_, either, text, plus, optional, repeat, digit, hex_digit, full_match,
}
use usdb_explorer.Python.Text.{split}
pub mod Archive
pub mod Bounded
pub mod Verify
pub mod Verified
pub mod Links
pub mod Activate
pub mod Atomic
pub mod Run
pub mod Kept
pub mod Switched
mod Tests

-- What stands under a name of a directory: a file by its bytes, a directory or a symbolic link.
pub data Node : Type 0 where
  file : String → Node
  dir : Node
  link : String → Node

abbrev pub is_link : Node → Bool
is_link (link target) = true
is_link _ = false

abbrev version_re : Regex
version_re = then_ (plus digit) (
    then_ (text ".") (
      then_ (plus digit) (
        then_ (text ".") (
          then_ (plus digit) (
            optional (
              then_ (text "-")
                (plus (class ((b'a', b'z') ∷ (b'0', b'9') ∷ (b'.', b'.') ∷ [])))))))))

-- `usdb-(?:public|explorer)-v[0-9]+\.[0-9]+\.[0-9]+(?:-[a-z0-9.]+)?`
abbrev pub release_re : Regex
release_re =
    then_ (text "usdb-")
      (then_ (either (text "public") (text "explorer")) (then_ (text "-v") version_re))

abbrev pub sha256_re : Regex
sha256_re = repeat 64 hex_digit

-- `PurePosixPath(name).parts` of a name that does not start with a slash.
unfoldable pub parts : String → List String
parts name = keep (λ part. not ((part =s "") || (part =s "."))) (split b'/' name)
