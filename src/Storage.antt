-- ===== src/Storage.antt =====
-- internal/storage/storage.go and internal/storage/localfs/localfs.go: uploaded captures, their bytes on
-- disk and their metadata in memory.
pub mod Kept
pub mod Order
use Prim.Native.String
use tuti_server.Base.{ℕ, String, List, [], ◌∷◌, ◌++◌, length, ltb, encode_hex, if◌then◌else◌}
use tuti_server.Errors.{
  Result, ok, err, M, ◌>>=◌, ◌>>◌, return, lift, wrapping, map_err, wrapf, sentinel,
  storage_not_found, bind, or_fail,
}
use tuti_server.Dict
use tuti_server.Dict.{Dict}
use tuti_server.Os.{Os, FilePath}

-- `Object`
pub record Object : Type 0 where
  pub id : String
  pub name : String
  pub content_type : String
  pub size_bytes : ℕ
  pub uploaded_at : ℕ

-- `localfs.Store`, with the disk that it writes to
pub record LocalFs (D : Type 0) : Type 0 where
  pub disk : D
  pub dir : FilePath
  pub objects : Dict Object

-- `newID`
unfoldable pub new_id : Result (List ℕ) → Result String
new_id rand = bind rand λ b. ok (String.◌++◌ "cap_" (encode_hex b))

-- `path`
abbrev pub path : FilePath → String → FilePath
path dir id = dir ++ (id ∷ [])

-- `sort.Slice` by `UploadedAt.After`: the newest first
unfoldable pub insert_newest : Object → List Object → List Object
insert_newest o [] = o ∷ []
insert_newest o (p ∷ rest) =
    let further = insert_newest o rest in
    if ltb o.uploaded_at p.uploaded_at then p ∷ further else o ∷ p ∷ rest

unfoldable pub newest_first : List Object → List Object
newest_first [] = []
newest_first (o ∷ objs) = insert_newest o (newest_first objs)

module _ {D : Type 0} (os : Os D) where
  -- `New`
  unfoldable pub new : FilePath → D → Result (LocalFs D)
  new dir d =
      let (r, d') = os.mkdir_all dir d in
      bind (map_err (wrapf "localfs: create dir: %w" []) r)
        λ _. ok (record { disk = d'; dir = dir; objects = Dict.empty })

  abbrev on_disk : {A : Type 0} → M D A → M (LocalFs D) A
  on_disk m st = let (r, d) = m st.disk in (r, record st { disk = d })

  -- `s.objects[id] = obj`
  abbrev put_object : String → Object → M (LocalFs D) (Unit {0})
  put_object id obj st = (ok tt, record st { objects = Dict.set st.objects id obj })

  -- `Save`
  unfoldable pub save : String → String → List ℕ → Result (List ℕ) → ℕ → M (LocalFs D) Object
  save name content_type bytes rand now st =
      (do
        id ← wrapping (wrapf "localfs: generate id: %w" []) (lift (new_id rand))
        wrapping (wrapf "localfs: write file: %w" [])
            (on_disk (os.write_file (path st.dir id) bytes))
        let obj : Object = record {
          id = id;
          name = name;
          content_type = content_type;
          size_bytes = length bytes;
          uploaded_at = now;
        }
        put_object id obj
        return obj)
        st

  -- `Get`
  unfoldable pub get : String → LocalFs D → Result (Object × List ℕ)
  get id st = bind (or_fail (Dict.get st.objects id) (sentinel storage_not_found)) λ obj.
      bind (map_err (wrapf "localfs: read file: %w" []) (os.read_file (path st.dir id) st.disk))
        λ bytes. ok (obj, bytes)

-- `List`
unfoldable pub list : {D : Type 0} → LocalFs D → List Object
unfolding newest_first insert_newest
list st = newest_first (Dict.values st.objects)
