-- ===== src/Install/Bounded.antt =====
-- What `extract_release` of explorer/install_release.py writes: files below the release, apart from
-- one another, and not too many or too large.
use usdb_explorer.Prelude.{
  ℕ, ◌+◌, ◌≤◌, ◌≡◌, refl, sym, ap, ap₂, subst, ◌∙◌, inl, inr, String, Bool, true, false,
  if◌then◌else◌, not, ◌&&◌, ◌||◌, ◌=s◌, ltb, List, [], ◌∷◌, ◌++◌, any, keep, length, All, In, arith,
  Bool-cases,
}
use usdb_explorer.Prelude.Int.{ℤ, pos, negsuc}
use usdb_explorer.Python.Exn.{ok, bind_ok, refuse_ok}
use usdb_explorer.Python.Exn.Loops.{ok-injective, unless_ok}
use usdb_explorer.Python.Text.{split}
use usdb_explorer.Install.{is_link, parts}
use usdb_explorer.Install.Archive.{
  Kind, regular, directory, special, Member, Extracted, heads_with, is_file, is_within, is_unsafe,
  max_file, max_total, add_size, write_member, Progress, extract_member, extract_members,
  extract_release, dir_of, file_of, is_blocked, is_taken,
}

-- A path below the directory of the release.
abbrev pub IsInside : String → List String → Type 0
IsInside release_id path = (heads_with release_id path ≡ true) × (¬ In ".." path)

-- Neither is a file that the other one replaces or stands below.
abbrev pub IsApart : Extracted → Extracted → Type 0
IsApart a b =
    ((is_file a.node && is_within a.path b.path) ≡ false)
    × ((is_file b.node && is_within b.path a.path) ≡ false)

abbrev pub AreApart : List Extracted → Type 0
AreApart [] = Unit
AreApart (e ∷ tree) = All (IsApart e) tree × AreApart tree

-- The size that a member declares, where it is not negative.
abbrev pub size_of : ℤ → ℕ
size_of (pos n) = n
size_of (negsuc n) = 0

abbrev pub IsSized : ℤ → Type 0
IsSized (pos n) = n ≤ max_file
IsSized (negsuc n) = ⊥

-- The sum of the sizes of the members.
abbrev pub total_size : List Member → ℕ
total_size [] = 0
total_size (m ∷ members) = size_of m.size + total_size members

-- The paths of the members, in their order.
abbrev pub paths_of : List Member → List (List String)
paths_of [] = []
paths_of (m ∷ members) = parts m.name ∷ paths_of members

abbrev pub written_paths : List Extracted → List (List String)
written_paths [] = []
written_paths (e ∷ tree) = e.path ∷ written_paths tree

-- What was written for the members: an entry for each of them, in their order.
pub record IsBounded (release_id : String) (members : List Member) (p : Progress) : Type 0 where
  pub entries : written_paths p.tree ≡ paths_of members
  pub inside : All (λ e. IsInside release_id e.path) p.tree
  pub no_links : All (λ e. is_link e.node ≡ false) p.tree
  pub apart : AreApart p.tree
  pub total : p.total ≡ total_size members
  pub seen : length p.seen ≡ length members
  pub each_small : All (λ m. IsSized m.size) members
  pub small : total_size members ≤ max_total
  pub few : length members ≤ 128

total_size-snoc :
    (members : List Member) (m : Member)
    → total_size (members ++ (m ∷ [])) ≡ total_size members + size_of m.size
total_size-snoc [] m = omega arith
total_size-snoc (x ∷ members) m = omega (arith, total_size-snoc members m)

length-snoc : {A : Type 0} (xs : List A) (x : A) → length (xs ++ (x ∷ [])) ≡ length xs + 1
length-snoc [] x = omega arith
length-snoc (y ∷ xs) x = omega (arith, length-snoc xs x)

paths_of-snoc :
    (members : List Member) (m : Member)
    → paths_of (members ++ (m ∷ [])) ≡ paths_of members ++ (parts m.name ∷ [])
paths_of-snoc [] m = refl
paths_of-snoc (x ∷ members) m = ap (λ ps. parts x.name ∷ ps) (paths_of-snoc members m)

written_paths-snoc :
    (tree : List Extracted) (e : Extracted)
    → written_paths (tree ++ (e ∷ [])) ≡ written_paths tree ++ (e.path ∷ [])
written_paths-snoc [] e = refl
written_paths-snoc (x ∷ tree) e = ap (λ ps. x.path ∷ ps) (written_paths-snoc tree e)

append_nil : {A : Type 0} (xs : List A) → xs ++ [] ≡ xs
append_nil [] = refl
append_nil (x ∷ xs) = ap (λ zs. x ∷ zs) (append_nil xs)

snoc_append :
    {A : Type 0} (xs : List A) (y : A) (ys : List A) → (xs ++ (y ∷ [])) ++ ys ≡ xs ++ (y ∷ ys)
snoc_append [] y ys = refl
snoc_append (x ∷ xs) y ys = ap (λ zs. x ∷ zs) (snoc_append xs y ys)

module _ {A : Type 0} (P : A → Type 0) where
  All-snoc : (xs : List A) (x : A) → All P xs → P x → All P (xs ++ (x ∷ []))
  All-snoc [] x a p = (p, tt)
  All-snoc (y ∷ xs) x (q, a) p = (q, All-snoc xs x a p)

AreApart-snoc :
    (tree : List Extracted) (e : Extracted)
    → AreApart tree
    → All (λ x. IsApart x e) tree
    → AreApart (tree ++ (e ∷ []))
AreApart-snoc [] e a h = (tt, tt)
AreApart-snoc (x ∷ tree) e (a, rest) (p, h) =
    (All-snoc (IsApart x) tree e a p, AreApart-snoc tree e rest h)

-- A directory that no file blocks is apart from all there is.
new_dir_sound :
    (path : List String) (tree : List Extracted) (e : Extracted)
    → e.path ≡ path
    → is_file e.node ≡ false
    → any (λ x. is_file x.node && is_within x.path path) tree ≡ false
    → All (λ x. IsApart x e) tree
new_dir_sound path [] e same d h = tt
new_dir_sound path (x ∷ tree) e same d h =
    ((rw same (ground arith), rw d refl), new_dir_sound path tree e same d (ground arith))

new_file_sound :
    (path : List String) (tree : List Extracted) (e : Extracted)
    → e.path ≡ path
    → any (λ x. is_file x.node && is_within x.path path) tree ≡ false
    → any (λ x. is_within path x.path) tree ≡ false
    → All (λ x. IsApart x e) tree
new_file_sound path [] e same h k = tt
new_file_sound path (x ∷ tree) e same h k = (
  (rw same (ground arith), rw same (ground arith)),
  new_file_sound path tree e same (ground arith) (ground arith),
)

In-kept : (p : String → Bool) (xs : List String) (x : String) → In x (keep p xs) → In x xs
In-kept p [] x i = i
In-kept p (y ∷ xs) x i = elim (Bool-cases (p y)) [
  | inl e ↦ elim (subst (λ b. In x (if b then y ∷ keep p xs else keep p xs)) e i) [
    | inl same ↦ inl same
    | inr j ↦ inr (In-kept p xs x j)
  ]
  | inr e ↦ inr (In-kept p xs x (subst (λ b. In x (if b then y ∷ keep p xs else keep p xs)) e i))
]

any-absent :
    (p : String → Bool) (xs : List String) (x : String) → any p xs ≡ false → p x ≡ true → ¬ In x xs
any-absent p [] x h t i = i
any-absent p (y ∷ xs) x h t (inl e) = let first : p y ≡ false = ground arith in cc (ap p e)
any-absent p (y ∷ xs) x h t (inr i) = any-absent p xs x (ground arith) t i

left_false : (a b : Bool) → (a || b) ≡ false → a ≡ false
left_false a b h = ground arith

right_false : (a b : Bool) → (a || b) ≡ false → b ≡ false
right_false a b h = ground arith

unsafe_sound :
    (release_id : String) (seen : List String) (member : Member)
    → is_unsafe release_id seen member ≡ false
    → IsInside release_id (parts member.name)
unfolding is_unsafe parts
unsafe_sound release_id seen member h = (
  ground arith,
  λ i.
      any-absent (λ part. (part =s ".") || (part =s "..")) (split b'/' member.name) ".."
        (ground arith) refl
        (In-kept (λ part. not ((part =s "") || (part =s "."))) (split b'/' member.name) ".." i),
)

add_size_sound :
    (seen : List String) (total : ℕ) (size : ℤ) {sum : ℕ}
    → add_size seen total size ≡ ok sum
    → IsSized size × (sum ≡ total + size_of size) × (sum ≤ max_total) × (length seen ≤ 128)
unfolding add_size
add_size_sound seen total (negsuc n) h = cc
add_size_sound seen total (pos n) h =
    let (fits, h1) =
      refuse_ok (ltb 128 (length seen) || ltb max_file n || ltb max_total (total + n)) _ _ h in
    let same = ok-injective h1 in
    (file_fits fits, sym same, omega (arith, same, total_fits fits), ground arith)
  where
    file_fits :
        (ltb 128 (length seen) || ltb max_file n || ltb max_total (total + n)) ≡ false
        → n ≤ max_file
    file_fits f = ground arith

    total_fits :
        (ltb 128 (length seen) || ltb max_file n || ltb max_total (total + n)) ≡ false
        → total + n ≤ max_total
    total_fits f = ground arith

module _ (release_id : String) where
  -- What one more entry has to be.
  record IsWritten (tree more : List Extracted) (path : List String) : Type 0 where
    entry : Extracted
    at : entry.path ≡ path
    plain : is_link entry.node ≡ false
    same : tree ++ (entry ∷ []) ≡ more
    apart : All (λ x. IsApart x entry) tree

  write_member-IsWritten :
      (kind : Kind) (member : Member) (tree : List Extracted) {more : List Extracted}
      → write_member release_id kind member tree ≡ ok more
      → IsWritten tree more (parts member.name)
  unfolding write_member
  write_member-IsWritten directory member tree h =
      let (free, same) = unless_ok (is_blocked (parts member.name) tree) _ h in
      record {
        entry = dir_of member;
        at = refl;
        plain = refl;
        same = same;
        apart = new_dir_sound (parts member.name) tree (dir_of member) refl refl free;
      }
  write_member-IsWritten regular member tree h =
      let (free, same) =
        unless_ok (is_blocked (parts member.name) tree || is_taken (parts member.name) tree) _ h in
      record {
        entry = file_of release_id member;
        at = refl;
        plain = refl;
        same = same;
        apart =
            new_file_sound (parts member.name) tree (file_of release_id member) refl
              (left_false _ _ free) (right_false _ _ free);
      }
  write_member-IsWritten special member tree h =
      let (free, same) =
        unless_ok (is_blocked (parts member.name) tree || is_taken (parts member.name) tree) _ h in
      record {
        entry = file_of release_id member;
        at = refl;
        plain = refl;
        same = same;
        apart =
            new_file_sound (parts member.name) tree (file_of release_id member) refl
              (left_false _ _ free) (right_false _ _ free);
      }

  extract_member-IsBounded :
      (past : List Member) (p : Progress) (member : Member) {next : Progress}
      → extract_member release_id p member ≡ ok next
      → IsBounded release_id past p
      → IsBounded release_id (past ++ (member ∷ [])) next
  unfolding extract_member
  extract_member-IsBounded past p member h b =
      let (safe, h1) = refuse_ok (is_unsafe release_id p.seen member) _ _ h in
      let (total, at_total, h2) =
        bind_ok (add_size (member.name ∷ p.seen) p.total member.size) _ h1 in
      let (tree, at_tree, h3) = bind_ok (write_member release_id member.kind member p.tree) _ h2 in
      let w = write_member-IsWritten member.kind member p.tree at_tree in
      let (sized, sum, small, few) =
        add_size_sound (member.name ∷ p.seen) p.total member.size at_total in
      let place =
        subst (IsInside release_id) (sym w.at) (unsafe_sound release_id p.seen member safe) in
      subst (IsBounded release_id (past ++ (member ∷ []))) (ok-injective h3) (record {
        entries =
            ap written_paths (sym w.same)
            ∙ (written_paths-snoc p.tree w.entry
                ∙ (ap₂ (λ (ps : List (List String)) (q : List String). ps ++ (q ∷ [])) b.entries
                      w.at
                    ∙ sym (paths_of-snoc past member)));
        total = omega (arith, sum, b.total, total_size-snoc past member);
        seen = omega (arith, b.seen, length-snoc past member);
        each_small = All-snoc (λ m. IsSized m.size) past member b.each_small sized;
        inside =
            subst (All (λ e. IsInside release_id e.path)) w.same
              (All-snoc (λ e. IsInside release_id e.path) p.tree w.entry b.inside place);
        no_links =
            subst (All (λ e. is_link e.node ≡ false)) w.same
              (All-snoc (λ e. is_link e.node ≡ false) p.tree w.entry b.no_links w.plain);
        apart = subst AreApart w.same (AreApart-snoc p.tree w.entry b.apart w.apart);
        small = omega (arith, sum, small, b.total, total_size-snoc past member);
        few = omega (arith, few, b.seen, length-snoc past member);
      })

  extract_members-IsBounded :
      (past : List Member) (p : Progress) (members : List Member) {result : Progress}
      → extract_members release_id p members ≡ ok result
      → IsBounded release_id past p
      → IsBounded release_id (past ++ members) result
  unfolding extract_members
  extract_members-IsBounded past p [] {result} h b =
      subst (λ ms. IsBounded release_id ms result) (sym (append_nil past))
        (subst (IsBounded release_id past) (ok-injective h) b)
  extract_members-IsBounded past p (member ∷ members) {result} h b =
      let (next, first, rest) = bind_ok (extract_member release_id p member) _ h in
      subst (λ ms. IsBounded release_id ms result) (snoc_append past member members)
        (extract_members-IsBounded (past ++ (member ∷ [])) next members rest
          (extract_member-IsBounded past p member first b))

-- An archive that is extracted has written one entry for each member, in their order: no link,
-- nothing outside of the release, and no file over or below another one. It has at most 128 members,
-- of at most 4 MiB each and 16 MiB together.
pub extract_release-IsBounded :
    (release_id : String) (members : List Member) {result : Progress}
    → extract_release release_id members ≡ ok result
    → IsBounded release_id members result
unfolding extract_release
extract_release-IsBounded release_id members h =
    extract_members-IsBounded release_id [] _ members h (record {
      entries = refl;
      total = refl;
      seen = refl;
      each_small = tt;
      inside = tt;
      no_links = tt;
      apart = tt;
      small = omega arith;
      few = omega arith;
    })
