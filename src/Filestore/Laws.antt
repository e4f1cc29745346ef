-- ===== src/Filestore/Laws.antt =====
-- The file store keeps the contract of `session.Store`.
use Prim.Native.String
use tuti_server.Base.{
  ◌+◌, String, ◌≡◌, ◌≢◌, ◌↔◌, true, false, List, [], ◌∷◌, ◌++◌, length, arith, ◌==◌, ◌&&◌, eq_iff,
  contains, inl, inr, is_plain, is_name, Bool-cases, sym,
}
use tuti_server.Errors.{
  Error, ok, err, Result-cases, sentinel, session_not_found, errors_is, not_exist,
}
use tuti_server.Os.{Os, FilePath, Entry, IsOs, is_missing}
use tuti_server.Os.Paths.{join, join_file}
use tuti_server.Session.{Bytes}
use tuti_server.Session.Laws.{IsStore, TellsMissing}
use tuti_server.Filestore.Names.{
  path_injective, length-path, length-dir, contains-ids_of, ids_of-plain, Records, Records-ids_of,
  json_plain,
}
use tuti_server.Filestore.{FileStore, path, save, load, list, file_store}

module _ {D : Type 0} (os : Os D) (laws : IsOs os) (s : FileStore) where
  load-save_file :
      (kind id : String) (bytes : Bytes) (d : D)
      → (save os s kind id bytes d).0 ≡ ok tt
      → load os s kind id (save os s kind id bytes d).1 ≡ ok bytes
  unfolding save load
  load-save_file kind id bytes d h =
      ground
        (arith, laws.read-write (path s kind id) bytes (os.mkdir_all (join s.dir (kind ∷ [])) d).1)

  read-save_ne :
      (p : FilePath) (kind id : String) (bytes : Bytes) (d : D)
      → is_name kind ≡ true
      → is_plain id ≡ true
      → path s kind id ≢ p
      → length p ≡ length s.dir + 2
      → os.read_file p (save os s kind id bytes d).1 ≡ os.read_file p d
  unfolding save
  read-save_ne p kind id bytes d k i ne len = ground (
    arith,
    laws.read-write_ne (path s kind id) p bytes (os.mkdir_all (join s.dir (kind ∷ [])) d).1 ne,
    laws.read-mkdir (join s.dir (kind ∷ [])) p d,
    length-path s kind id k i,
    length-dir s kind k,
  )

  load-save_file_ne :
      (kind id kind' id' : String) (bytes : Bytes) (d : D)
      → (is_name kind && is_name kind') ≡ true
      → (is_plain id && is_plain id') ≡ true
      → (kind == kind' && id == id') ≡ false
      → load os s kind' id' (save os s kind id bytes d).1 ≡ load os s kind' id' d
  unfolding load
  load-save_file_ne kind id kind' id' bytes d k i ne =
      let same =
        read-save_ne (path s kind' id') kind id bytes d (ground arith) (ground arith)
          (λ e.
            let (same_kind, same_id) = path_injective s kind id kind' id' k i e in
            ground (arith, eq_iff kind kind', eq_iff id id'))
          (length-path s kind' id' (ground arith) (ground arith)) in
      ground (arith, same)

  list-complete_file :
      (kind id : String) (d : D) (ids : List String) (bytes : Bytes)
      → is_plain id ≡ true
      → list os s kind d ≡ ok ids
      → load os s kind id d ≡ ok bytes
      → contains id ids ≡ true
  unfolding list load
  list-complete_file kind id d ids bytes plain listed loaded =
      let dir = join s.dir (kind ∷ []) in
      let there : os.read_file (dir ++ (String.◌++◌ id ".json" ∷ [])) d ≡ ok bytes =
        rw (sym (join_file s.dir kind id plain)) (ground arith) in
      let name_plain = json_plain id plain in
      elim (Result-cases (os.read_dir dir d)) [
        | inl (es, e) ↦ ground (
          arith,
          contains-ids_of id es,
          laws.read_dir_complete dir (String.◌++◌ id ".json") d bytes es name_plain there e,
        )
        | inr (f, e) ↦
            ground (
              arith,
              laws.read_dir_exists dir (String.◌++◌ id ".json") d bytes f name_plain there e,
            )
      ]

  list_plain_file :
      (kind id : String) (d : D) (ids : List String)
      → list os s kind d ≡ ok ids
      → contains id ids ≡ true
      → is_plain id ≡ true
  unfolding list
  list_plain_file kind id d ids listed there =
      elim (Result-cases (os.read_dir (join s.dir (kind ∷ [])) d)) [
        | inl (es, e) ↦
            ground (arith, ids_of-plain id es (laws.read_dir_plain (join s.dir (kind ∷ [])) d es e))
        | inr (f, e) ↦ ground arith
      ]

  -- The records of the kind are the store's own.
  abbrev pub IsOwn : String → D → Type 0
  IsOwn kind d = (es : List Entry) → os.read_dir (join s.dir (kind ∷ [])) d ≡ ok es → Records es

  load_missing_iff :
      (kind id : String) (d : D)
      → is_plain id ≡ true
      → (load os s kind id d ≡ err (sentinel session_not_found)) ↔ (
          is_missing (os.read_file (join s.dir (kind ∷ []) ++ (String.◌++◌ id ".json" ∷ [])) d)
          ≡ true)
  unfolding load
  load_missing_iff kind id d plain =
      rw (sym (join_file s.dir kind id plain))
        (elim (Result-cases (os.read_file (path s kind id) d)) [
          | inl (bytes, e) ↦ (λ h. absurd (ground arith), λ h. absurd (ground arith))
          | inr (f, e) ↦ elim (Bool-cases (errors_is f not_exist)) [
            | inl gone ↦ (λ h. ground arith, λ h. ground arith)
            | inr other ↦ (λ h. absurd (ground arith), λ h. absurd (ground arith))
          ]
        ])

  load_missing_file :
      (kind id : String) (d : D) (ids : List String)
      → IsOwn kind d
      → is_plain id ≡ true
      → list os s kind d ≡ ok ids
      → (load os s kind id d ≡ err (sentinel session_not_found)) ↔ (contains id ids ≡ false)
  unfolding list
  load_missing_file kind id d ids own plain listed =
      let dir = join s.dir (kind ∷ []) in
      let name = String.◌++◌ id ".json" in
      let (told, tells) = load_missing_iff kind id d plain in
      elim (Result-cases (os.read_dir dir d)) [
        | inl (es, e) ↦
            let (file, entry) = Records-ids_of id es (own es e) in
            let there = laws.read_listed dir name d es e in
            let gone = laws.read_unlisted dir name d es (json_plain id plain) e in
            (
              λ h. let missing = told h in ground (arith, file, there),
              λ h. tells (gone (ground (arith, entry))),
            )
        | inr (f, e) ↦
            let gone = laws.read_no_dir dir name d f e in
            (λ h. ground arith, λ h. tells (gone (ground arith)))
      ]

  -- There is no directory for the kind.
  abbrev pub IsGone : String → D → Type 0
  IsGone kind d =
      (e : Error) × (os.read_dir (join s.dir (kind ∷ [])) d ≡ err e)
      × (errors_is e not_exist ≡ true)

  list_gone_file : (kind : String) (d : D) → IsGone kind d → list os s kind d ≡ ok []
  unfolding list
  list_gone_file kind d (e, failed, gone) = ground arith

  load_gone_file :
      (kind id : String) (d : D)
      → IsGone kind d
      → is_plain id ≡ true
      → load os s kind id d ≡ err (sentinel session_not_found)
  load_gone_file kind id d (e, failed, gone) plain =
      (load_missing_iff kind id d plain).1
        (laws.read_no_dir (join s.dir (kind ∷ [])) (String.◌++◌ id ".json") d e failed gone)

  -- Over a disk that keeps its documented behaviour the file store is a `session.Store`, for kinds and ids
  -- that are names: a record that was saved is loaded, a save leaves all other records, and every record is
  -- listed under its kind. Load returns ErrNotFound exactly for the names that are not listed, where the
  -- store alone has written in the kind's directory; where there is no such directory, the list is empty and
  -- Load returns ErrNotFound.
  pub file_store-IsStore : IsStore (file_store os s) × TellsMissing IsOwn IsGone (file_store os s)
  file_store-IsStore = (
    record {
      load-save = load-save_file;
      load-save_ne = load-save_file_ne;
      list_complete = list-complete_file;
      list_plain = list_plain_file;
    },
    record {
      load_missing = load_missing_file;
      list_gone = list_gone_file;
      load_gone = load_gone_file;
    },
  )
