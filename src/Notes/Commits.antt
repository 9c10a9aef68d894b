-- ===== src/Notes/Commits.antt =====
-- The commit inventory: `_classify_release_notes` and `commit_records` of
-- scripts/release_notes.py.
pub mod Laws
use Prim.Native.Char.{code}
use usdb_explorer.Prelude.{
  ℕ, zero, suc, ◌+◌, ◌≡◌, refl, String, ◌<>◌, Bool, true, false, not, ◌&&◌, ◌||◌, Option, none,
  some, List, [], ◌∷◌, all, contains, distinct, ◌==◌, ◌=s◌, if◌then◌else◌,
}
use usdb_explorer.Python.Exn.{Result, ok, raise, value_error, ◌>>=◌, ◌>>◌, require}
use usdb_explorer.Python.Text.{is_space, lstrip, starts_with, partition, split}

pub data Coverage : Type 0 where
  classified exempt unclassified : Coverage

-- `release_notes == ["none"]`
abbrev pub is_exemption : List String → Bool
is_exemption (note ∷ []) = note =s "none"
is_exemption _ = false

abbrev filled : List String → Bool
filled [] = false
filled (x ∷ xs) = true

unfoldable pub classify : List String → List String → String → Result Coverage
classify release_notes known_change_ids context = do
  require (distinct release_notes) (context <> " has duplicate Release-Note trailers")
  require (not (contains release_notes "none") || is_exemption release_notes)
      (context <> " mixes Release-Note: none with change IDs")
  ok (
      if is_exemption release_notes
      then exempt
      else if filled release_notes && all (contains known_change_ids) release_notes
      then classified
      else unclassified)

-- How many characters `\s*$` takes, with MULTILINE: as many as end at the end of a line.
unfoldable pub line_end : String → Option ℕ
unfolding is_space
line_end String.[] = some 0
line_end (String.◌∷◌ c s) =
    let here : Option ℕ = if code c == 10 then some 0 else none in
    let after : Option ℕ = elim (line_end s) [ some n ↦ some (suc n) | none ↦ here ] in
    if is_space (code c) then after else none

-- The longest start without white space, its length, and what follows.
pub record Word : Type 0 where
  pub text : String
  pub size : ℕ
  pub rest : String

unfoldable pub take_word : String → Word
unfolding is_space
take_word String.[] = record { text = ""; size = 0; rest = "" }
take_word (String.◌∷◌ c s) =
    let w = take_word s in
    if is_space (code c)
    then record { text = ""; size = 0; rest = String.◌∷◌ c s }
    else record { text = String.◌∷◌ c w.text; size = suc w.size; rest = w.rest }

unfoldable pub count_spaces : String → ℕ
unfolding is_space
count_spaces String.[] = 0
count_spaces (String.◌∷◌ c s) = let n = count_spaces s in if is_space (code c) then suc n else 0

-- `\s*([^\s]+)\s*$` at the start of a text: the note, and the length of the match.
unfoldable pub note_at : String → Option (String × ℕ)
unfolding line_end take_word count_spaces lstrip
note_at s =
    let w = take_word (lstrip s) in
    if w.size == 0 then none else elim (line_end w.rest) [
      | none ↦ none
      | some n ↦ some (w.text, count_spaces s + w.size + n)
    ]

abbrev label : String
label = "Release-Note:"

abbrev drop : ℕ → String → String
drop zero s = s
drop (suc n) String.[] = ""
drop (suc n) (String.◌∷◌ c s) = drop n s

-- `re.findall(r"^Release-Note:\s*([^\s]+)\s*$", body, re.MULTILINE)`. The number counts what the
-- last match still covers, and the flag says that a line starts here.
unfoldable pub find_notes : ℕ → Bool → String → List String
unfolding note_at
find_notes skip start String.[] = []
find_notes (suc skip) start (String.◌∷◌ c s) = find_notes skip (code c == 10) s
find_notes zero false (String.◌∷◌ c s) = find_notes 0 (code c == 10) s
find_notes zero true (String.◌∷◌ c s) =
    let found = note_at (drop 13 (String.◌∷◌ c s)) in
    elim (starts_with (String.◌∷◌ c s) label) [
      | true ↦ elim found [
        | none ↦ find_notes 0 (code c == 10) s
        | some (note, size) ↦ note ∷ find_notes (12 + size) (code c == 10) s
      ]
      | false ↦ find_notes 0 (code c == 10) s
    ]

pub record Commit : Type 0 where
  pub revision : String
  pub subject : String
  pub release_notes : List String
  pub classification : Coverage

-- `s.strip("\n")`
abbrev lstrip_newlines : String → String
lstrip_newlines String.[] = ""
lstrip_newlines (String.◌∷◌ c s) =
    let rest = lstrip_newlines s in if code c == 10 then rest else String.◌∷◌ c s

abbrev rstrip_newlines : String → String
rstrip_newlines String.[] = ""
rstrip_newlines (String.◌∷◌ c s) =
    let rest = rstrip_newlines s in if (rest =s "") && (code c == 10) then "" else String.◌∷◌ c rest

abbrev strip_newlines : String → String
strip_newlines s = rstrip_newlines (lstrip_newlines s)

-- One record of the log: `sha, subject, body = raw.split("\x1f", 2)`.
unfoldable pub commit_record : List String → String → Result Commit
unfolding partition find_notes classify
commit_record known_ids raw =
    let (sha, behind) = partition 31 raw in
    elim behind [
      | none ↦ raise (value_error "not enough values to unpack")
      | some more ↦
          let (subject, rest) = partition 31 more in
          elim rest [
            | none ↦ raise (value_error "not enough values to unpack")
            | some body ↦ do
              let notes = find_notes 0 true body
              classification ← classify notes known_ids ("commit " <> sha)
              ok (record {
                revision = sha;
                subject = subject;
                release_notes = notes;
                classification = classification;
              })
          ]
    ]

unfoldable pub read_records : List String → List String → Result (List Commit)
unfolding commit_record
read_records known_ids [] = ok []
read_records known_ids (raw ∷ rest) =
    let stripped = strip_newlines raw in
    let more = read_records known_ids rest in
    if stripped =s ""
    then more
    else do commit ← commit_record known_ids stripped; commits ← more; ok (commit ∷ commits)

unfoldable pub commit_records :
    (List String → Result String) → String → Option String → List String → Result (List Commit)
unfolding read_records split
commit_records git revision previous_revision known_ids = do
  let range : String = elim previous_revision [ none ↦ revision | some p ↦ p <> ".." <> revision ]
  output ← git ("log" ∷ "--reverse" ∷ "--format=%H%x1f%s%x1f%b%x1e" ∷ range ∷ [])
  read_records known_ids (split 30 output)

-- A body with two trailers, one of them over two lines.
notes_found :
    find_notes 0 true "text\nRelease-Note: a-b  \n\nRelease-Note:\nc\nx Release-Note: d\n"
    ≡ "a-b" ∷ "c" ∷ []
unfolding find_notes
notes_found = refl
