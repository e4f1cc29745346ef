-- ===== src/Os.antt =====
-- The part of Go's package `os` that the file stores call, as an interface over the state `D` of the
-- disk. A path is the list of its components; names have no separator in them.
pub mod Paths
pub mod Ram
use tuti_server.Base.{
  ℕ, String, ◌≡◌, ◌≢◌, ◌<◌, ◌≤◌, Bool, true, false, List, [], ◌∷◌, ◌++◌, length, ◌==◌, ◌||◌, ◌&&◌,
  not, All, is_plain,
}
use tuti_server.Errors.{Error, Result, ok, err, M, errors_is, not_exist}

abbrev pub FilePath : Type 0
FilePath = List String

-- `os.DirEntry`
pub record Entry : Type 0 where
  pub name : String
  pub is_dir : Bool

pub record Os (D : Type 0) : Type 0 where
  pub mkdir_all : FilePath → M D (Unit {0})
  pub write_file : FilePath → List ℕ → M D (Unit {0})
  pub read_file : FilePath → D → Result (List ℕ)
  pub read_dir : FilePath → D → Result (List Entry)

-- A directory lists a file of this name.
abbrev pub has_file : String → List Entry → Bool
has_file name [] = false
has_file name (e ∷ es) = (not e.is_dir && e.name == name) || has_file name es

abbrev pub has_entry : String → List Entry → Bool
has_entry name [] = false
has_entry name (e ∷ es) = e.name == name || has_entry name es

-- The answer for a file that is not there
abbrev pub is_missing : Result (List ℕ) → Bool
is_missing (ok bytes) = false
is_missing (err e) = errors_is e not_exist

-- The documented behaviour that the stores rely on.
pub record IsOs {D : Type 0} (os : Os D) : Type 0 where
  -- what was written is read
  pub read-write :
      (p : FilePath) (bytes : List ℕ) (d : D)
      → (os.write_file p bytes d).0 ≡ ok tt
      → os.read_file p (os.write_file p bytes d).1 ≡ ok bytes
  -- a write, failed or not, leaves the other files that do not lie below it
  pub read-write_ne :
      (p q : FilePath) (bytes : List ℕ) (d : D)
      → p ≢ q
      → length q ≤ length p
      → os.read_file q (os.write_file p bytes d).1 ≡ os.read_file q d
  -- a new directory leaves the files that do not lie above it
  pub read-mkdir :
      (p q : FilePath) (d : D)
      → length p < length q
      → os.read_file q (os.mkdir_all p d).1 ≡ os.read_file q d
  -- a directory lists its files
  pub read_dir_complete :
      (p : FilePath) (name : String) (d : D) (bytes : List ℕ) (es : List Entry)
      → is_plain name ≡ true
      → os.read_file (p ++ name ∷ []) d ≡ ok bytes
      → os.read_dir p d ≡ ok es
      → has_file name es ≡ true
  -- and is there, if a file in it can be read
  pub read_dir_exists :
      (p : FilePath) (name : String) (d : D) (bytes : List ℕ) (e : Error)
      → is_plain name ≡ true
      → os.read_file (p ++ name ∷ []) d ≡ ok bytes
      → os.read_dir p d ≡ err e
      → errors_is e not_exist ≡ false
  -- under names without a separator
  pub read_dir_plain :
      (p : FilePath) (d : D) (es : List Entry)
      → os.read_dir p d ≡ ok es
      → All (λ e. is_plain e.name ≡ true) es
  -- a file that is listed is there
  pub read_listed :
      (p : FilePath) (name : String) (d : D) (es : List Entry)
      → os.read_dir p d ≡ ok es
      → has_file name es ≡ true
      → is_missing (os.read_file (p ++ name ∷ []) d) ≡ false
  -- a name that is not listed is not there
  pub read_unlisted :
      (p : FilePath) (name : String) (d : D) (es : List Entry)
      → is_plain name ≡ true
      → os.read_dir p d ≡ ok es
      → has_entry name es ≡ false
      → is_missing (os.read_file (p ++ name ∷ []) d) ≡ true
  -- nor is any name in a directory that is not there
  pub read_no_dir :
      (p : FilePath) (name : String) (d : D) (e : Error)
      → os.read_dir p d ≡ err e
      → errors_is e not_exist ≡ true
      → is_missing (os.read_file (p ++ name ∷ []) d) ≡ true
