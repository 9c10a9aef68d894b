-- ===== src/Security/Reference.antt =====
-- `canonical_reference` of scripts/image_security.py.
use Prim.Native.Char.{code}
use usdb_explorer.Prelude.{ℕ, zero, suc, String, ◌<>◌, if◌then◌else◌, ◌&&◌, ◌==◌, none, some}
use usdb_explorer.Python.Value.{Value, str}
use usdb_explorer.Python.Exn.{Result, ok, raise, value_error}
use usdb_explorer.Python.Regex.{full_match}
use usdb_explorer.Python.Text.{partition, starts_with, has_code}
use usdb_explorer.Security.{digest_image}

-- `s.count(c)` for one character.
unfoldable pub count_code : ℕ → String → ℕ
count_code c String.[] = 0
count_code c (String.◌∷◌ d s) = let rest = count_code c s in if code d == c then suc rest else rest

-- `s[n:]`
unfoldable pub drop : ℕ → String → String
drop zero s = s
drop (suc n) String.[] = ""
drop (suc n) (String.◌∷◌ c s) = drop n s

-- `name.removeprefix("index.")` of a name of the index.
abbrev without_index : String → String
without_index name = if starts_with name "index.docker.io/" then drop 6 name else name

-- A name whose first part is no host is one of Docker Hub.
abbrev with_host : String → String
with_host name =
    if has_code b'.' (partition b'/' name).0
    then name
    else if has_code b'/' name
    then "docker.io/" <> name
    else "docker.io/library/" <> name

-- A name of Docker Hub without a namespace is in `library`.
abbrev with_library : String → String
with_library name =
    if starts_with name "docker.io/" && (count_code b'/' name == 1)
    then "docker.io/library/" <> drop 10 name
    else name

unfoldable pub canonical_name : String → String
canonical_name name = with_library (with_host (without_index name))

-- The name and the digest, around the only `@` of a reference that the pattern matches.
abbrev digest_of : String → String
digest_of s = elim (partition b'@' s).1 [ none ↦ "" | some d ↦ d ]

unfoldable pub canonical_reference : Value → Result String
canonical_reference (str s) =
    if full_match digest_image s
    then ok (canonical_name (partition b'@' s).0 <> ("@" <> digest_of s))
    else raise (value_error "invalid report image digest")
canonical_reference _ = raise (value_error "invalid report image digest")
