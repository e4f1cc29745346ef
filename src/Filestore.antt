-- ===== src/Filestore.antt =====
-- internal/session/filestore/filestore.go: a session store with one file for each record. Its state is
-- the disk.
pub mod Laws
pub mod Names
use Prim.Native.String
use tuti_server.Base.{ℕ, String, List, [], ◌∷◌, trim_suffix, if◌then◌else◌}
use tuti_server.Errors.{
  Result, ok, err, M, ◌>>=◌, ◌>>◌, return, wrapping, wrapf, errors_is, sentinel, session_not_found,
  not_exist,
}
use tuti_server.Os.Paths.{join}
use tuti_server.Os.{Os, FilePath, Entry}
use tuti_server.Session.{Bytes}
use tuti_server.Session

-- `Store`
pub record FileStore : Type 0 where
  pub dir : FilePath

-- The loop of `List`.
unfoldable pub ids_of : List Entry → List String
ids_of [] = []
ids_of (entry ∷ entries) =
    let rest = ids_of entries in
    if entry.is_dir then rest else trim_suffix entry.name ".json" ∷ rest

-- `path`
abbrev pub path : FileStore → String → String → FilePath
path s kind id = join s.dir (kind ∷ String.◌++◌ id ".json" ∷ [])

module _ {D : Type 0} (os : Os D) where
  -- `New`
  unfoldable pub new : FilePath → M D FileStore
  new dir = do
    wrapping (wrapf "filestore: create dir: %w" []) (os.mkdir_all dir)
    return (record { dir = dir })

  -- `Save`
  unfoldable pub save : FileStore → String → String → Bytes → M D (Unit {0})
  save s kind id bytes = do
    wrapping (wrapf "filestore: create dir: %w" []) (os.mkdir_all (join s.dir (kind ∷ [])))
    wrapping (wrapf "filestore: write file: %w" []) (os.write_file (path s kind id) bytes)

  -- `Load`
  unfoldable pub load : FileStore → String → String → D → Result Bytes
  load s kind id d = elim (os.read_file (path s kind id) d) [
    | ok bytes ↦ ok bytes
    | err e ↦
        if errors_is e not_exist
        then err (sentinel session_not_found)
        else err (wrapf "filestore: read file: %w" [] e)
  ]

  -- `List`
  unfoldable pub list : FileStore → String → D → Result (List String)
  list s kind d = elim (os.read_dir (join s.dir (kind ∷ [])) d) [
    | ok entries ↦ ok (ids_of entries)
    | err e ↦ if errors_is e not_exist then ok [] else err (wrapf "filestore: read dir: %w" [] e)
  ]

  -- The methods as a `session.Store`.
  abbrev pub file_store : FileStore → Session.Store D
  file_store s = record { save = save s; load = load s; list = list s }
