-- ===== src/Os/Ram.antt =====
-- A disk in memory, which shows that the behaviour asked of `os` can be had. Every directory is there.
use tuti_server.Base.{
  ℕ, String, ◌≡◌, ◌≢◌, refl, ap, subst, Bool, true, false, List, [], ◌∷◌, ◌++◌, arith, ◌==◌, ◌&&◌,
  Option, none, some, eq_iff, eq_refl, is_plain, All, Option-cases, ◌||◌, if◌then◌else◌, Bool-cases,
  inl, inr,
}
use tuti_server.Errors.{ok, sentinel, not_exist, or_fail}
use tuti_server.Os.{FilePath, Entry, Os, IsOs, has_file, has_entry, is_missing}

abbrev pub Ram : Type 0
Ram = List (FilePath × List ℕ)

unfoldable pub same_path : FilePath → FilePath → Bool
same_path [] [] = true
same_path (a ∷ p) (b ∷ q) = a == b && same_path p q
same_path _ _ = false

same_path_refl : (p : FilePath) → same_path p p ≡ true
unfolding same_path
same_path_refl [] = refl
same_path_refl (a ∷ p) = ground (arith, eq_refl a, same_path_refl p)

same_path_eq : (p q : FilePath) → same_path p q ≡ true → p ≡ q
unfolding same_path
same_path_eq [] [] h = refl
same_path_eq [] (b ∷ q) h = ground arith
same_path_eq (a ∷ p) [] h = ground arith
same_path_eq (a ∷ p) (b ∷ q) h = ground (arith, eq_iff a b, same_path_eq p q)

-- The name of a file that lies in a directory.
unfoldable pub child_of : FilePath → FilePath → Option String
child_of [] (name ∷ []) = if is_plain name then some name else none
child_of (a ∷ p) (b ∷ q) = let rest = child_of p q in if a == b then rest else none
child_of _ _ = none

child_of-append :
    (p : FilePath) (name : String) → is_plain name ≡ true → child_of p (p ++ name ∷ []) ≡ some name
unfolding child_of
child_of-append [] name h = ground arith
child_of-append (a ∷ p) name h = ground (arith, eq_refl a, child_of-append p name)

child_of-some :
    (p q : FilePath) (name : String)
    → child_of p q ≡ some name
    → (is_plain name ≡ true) × (q ≡ p ++ (name ∷ []))
unfolding child_of
child_of-some [] [] name h = absurd (ground arith)
child_of-some [] (x ∷ []) name h = elim (Bool-cases (is_plain x)) [
  | inl e ↦ (ground arith, ground arith)
  | inr e ↦ absurd (ground arith)
]
child_of-some [] (x ∷ y ∷ q) name h = absurd (ground arith)
child_of-some (a ∷ p) [] name h = absurd (ground arith)
child_of-some (a ∷ p) (b ∷ q) name h = elim (Bool-cases (a == b)) [
  | inl e ↦
      let (plain, at) = child_of-some p q name (ground arith) in
      (plain, rw at (ground (arith, eq_iff a b)))
  | inr e ↦ absurd (ground arith)
]

unfoldable pub find : FilePath → Ram → Option (List ℕ)
find p [] = none
find p ((q, bytes) ∷ d) = if same_path q p then some bytes else find p d

-- One directory entry, or none.
abbrev entry_if : Option String → List Entry → List Entry
entry_if none es = es
entry_if (some name) es = record { name = name; is_dir = false } ∷ es

unfoldable pub entries : FilePath → Ram → List Entry
entries p [] = []
entries p ((q, bytes) ∷ d) = entry_if (child_of p q) (entries p d)

abbrev pub ram : Os Ram
ram = record {
  mkdir_all = λ p d. (ok tt, d);
  write_file = λ p bytes d. (ok tt, (p, bytes) ∷ d);
  read_file = λ p d. or_fail (find p d) (sentinel not_exist);
  read_dir = λ p d. ok (entries p d);
}

has_file-entries :
    (p : FilePath) (name : String) (d : Ram) (bytes : List ℕ)
    → is_plain name ≡ true
    → find (p ++ name ∷ []) d ≡ some bytes
    → has_file name (entries p d) ≡ true
unfolding find entries
has_file-entries p name [] bytes plain h = ground arith
has_file-entries p name ((q, b) ∷ d) bytes plain h =
    elim (Bool-cases (same_path q (p ++ name ∷ []))) [
      | inl same ↦
          rw (same_path_eq q (p ++ name ∷ []) same)
            (rw (child_of-append p name plain) (ground (arith, eq_refl name)))
      | inr other ↦ ground (arith, has_file-entries p name d bytes)
    ]

read-write_ne_ram :
    (p q : FilePath) (bytes : List ℕ) (d : Ram) → p ≢ q → find q ((p, bytes) ∷ d) ≡ find q d
unfolding find
read-write_ne_ram p q bytes d ne = ground (arith, same_path_eq p q)

find_of_ok :
    (o : Option (List ℕ)) (bytes : List ℕ)
    → or_fail o (sentinel not_exist) ≡ ok bytes
    → o ≡ some bytes
find_of_ok o bytes h = ground arith

entries_plain : (p : FilePath) (d : Ram) → All (λ e. is_plain e.name ≡ true) (entries p d)
unfolding entries
entries_plain p [] = tt
entries_plain p ((q, bytes) ∷ d) = elim (Option-cases (child_of p q)) [
  | inl e ↦ rw e (entries_plain p d)
  | inr (name, e) ↦ rw e ((child_of-some p q name e).0, entries_plain p d)
]

ok_entries :
    (p : FilePath) (d : Ram) (es : List Entry)
    → ok (entries p d) ≡ ok es
    → All (λ e. is_plain e.name ≡ true) es
ok_entries p d es h = subst (λ es. All (λ e. is_plain e.name ≡ true) es) (cc) (entries_plain p d)

-- All entries are files.
has_file-has_entry :
    (p : FilePath) (name : String) (d : Ram)
    → has_file name (entries p d) ≡ has_entry name (entries p d)
unfolding entries
has_file-has_entry p name [] = refl
has_file-has_entry p name ((q, bytes) ∷ d) = elim (Option-cases (child_of p q)) [
  | inl e ↦ rw e (has_file-has_entry p name d)
  | inr (x, e) ↦ rw e (ap (λ b. (x == name) || b) (has_file-has_entry p name d))
]

find-entries :
    (p : FilePath) (name : String) (d : Ram)
    → has_file name (entries p d) ≡ true
    → is_missing (or_fail (find (p ++ name ∷ []) d) (sentinel not_exist)) ≡ false
unfolding entries find
find-entries p name [] h = absurd (ground arith)
find-entries p name ((q, b) ∷ d) h = elim (Bool-cases (same_path q (p ++ name ∷ []))) [
  | inl same ↦ rw same refl
  | inr other ↦ elim (Option-cases (child_of p q)) [
    | inl e ↦ rw other (find-entries p name d (ground arith))
    | inr (x, e) ↦ elim (Bool-cases (x == name)) [
      | inl eq ↦ absurd (
          ground (arith, eq_iff x name, (child_of-some p q x e).1, same_path_refl (p ++ name ∷ [])))
      | inr ne ↦ rw other (find-entries p name d (ground arith))
    ]
  ]
]

unlisted-entries :
    (p : FilePath) (name : String) (d : Ram)
    → is_plain name ≡ true
    → has_entry name (entries p d) ≡ false
    → is_missing (or_fail (find (p ++ name ∷ []) d) (sentinel not_exist)) ≡ true
unlisted-entries p name d plain h = elim (Option-cases (find (p ++ name ∷ []) d)) [
  | inl e ↦ rw e refl
  | inr (bytes, e) ↦
      absurd (ground (arith, has_file-entries p name d bytes plain e, has_file-has_entry p name d))
]

pub ram-IsOs : IsOs ram
unfolding find
ram-IsOs = record {
  read-write = λ p bytes d h. rw (same_path_refl p);
  read-write_ne = λ p q bytes d ne _.
      ap (λ o. or_fail o (sentinel not_exist)) (read-write_ne_ram p q bytes d ne);
  read-mkdir = λ p q d _. refl;
  read_dir_complete = λ p name d bytes es plain h e.
      ground (arith, has_file-entries p name d bytes plain (find_of_ok _ bytes h));
  read_dir_exists = λ p name d bytes e plain h f. ground arith;
  read_dir_plain = λ p d es h. ok_entries p d es h;
  read_listed = λ p name d es h listed. find-entries p name d (ground arith);
  read_unlisted = λ p name d es plain h none_here. unlisted-entries p name d plain (ground arith);
  read_no_dir = λ p name d e h missing. ground arith;
}
