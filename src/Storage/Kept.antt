-- ===== src/Storage/Kept.antt =====
-- What is saved can be got back, and stays.
use tuti_server.Base.{
  ℕ, ◌+◌, String, ◌≡◌, false, List, [], ◌∷◌, length, arith, ◌==◌, eq_iff, inl, inr, Bool-cases,
  if◌then◌else◌, some, none, length-append,
}
use mathlib.Core.List.{append_cancel_left}
use tuti_server.Errors.{Result, ok, Result-cases}
use tuti_server.Dict
use tuti_server.Dict.{get-set}
use tuti_server.Os.{Os, FilePath, IsOs}
use tuti_server.Storage.{Object, LocalFs, new_id, path, save, get}

path_injective : (dir : FilePath) (i j : String) → path dir i ≡ path dir j → i ≡ j
path_injective dir i j e = let rest = append_cancel_left dir (i ∷ []) (j ∷ []) e in cc

length-path : (dir : FilePath) (i : String) → length (path dir i) ≡ length dir + 1
length-path dir i = length-append dir (i ∷ [])

abbrev pub object_for : String → String → String → List ℕ → ℕ → Object
object_for id name content_type bytes now = record {
  id = id;
  name = name;
  content_type = content_type;
  size_bytes = length bytes;
  uploaded_at = now;
}

-- One call of Save, with what it meets.
pub record Upload : Type 0 where
  pub name : String
  pub content_type : String
  pub bytes : List ℕ
  pub rand : Result (List ℕ)
  pub now : ℕ

module _ {D : Type 0} (os : Os D) where
  -- Every capture in memory has its file, of the size that was noted.
  abbrev pub IsKept : LocalFs D → Type 0
  IsKept st =
      (id : String) (obj : Object)
      → Dict.get st.objects id ≡ some obj
      → (bytes : List ℕ) × (os.read_file (path st.dir id) st.disk ≡ ok bytes)
        × (obj.size_bytes ≡ length bytes)
        × (obj.id ≡ id)

  -- The new id is not in use.
  abbrev pub IsFresh : Result (List ℕ) → LocalFs D → Type 0
  IsFresh rand st = (id : String) → new_id rand ≡ ok id → Dict.get st.objects id ≡ none

  unfoldable pub uploads : List Upload → LocalFs D → LocalFs D
  uploads [] st = st
  uploads (u ∷ us) st = uploads us (save os u.name u.content_type u.bytes u.rand u.now st).1

  abbrev pub AllFresh : List Upload → LocalFs D → Type 0
  AllFresh [] st = Unit
  AllFresh (u ∷ us) st =
      IsFresh u.rand st × AllFresh us (save os u.name u.content_type u.bytes u.rand u.now st).1

module _ {D : Type 0} (os : Os D) (laws : IsOs os) where
  read-write_file_ne :
      (dir : FilePath) (i j : String) (bytes : List ℕ) (d : D)
      → (i == j) ≡ false
      → os.read_file (path dir j) (os.write_file (path dir i) bytes d).1
        ≡ os.read_file (path dir j) d
  read-write_file_ne dir i j bytes d ne =
      laws.read-write_ne (path dir i) (path dir j) bytes d
        (λ e. ground (arith, eq_iff i j, path_injective dir i j e))
        (omega (arith, length-path dir i, length-path dir j))

  -- A capture that Save returns has the name, the type, the size and the time of the upload, and Get
  -- finds it with its bytes; under every other id Get finds what it found before.
  pub get-save :
      (name content_type : String) (bytes : List ℕ) (rand : Result (List ℕ)) (now : ℕ)
      (st : LocalFs D) (obj : Object) (j : String)
      → (save os name content_type bytes rand now st).0 ≡ ok obj
      → (obj ≡ object_for obj.id name content_type bytes now)
        × (get os j (save os name content_type bytes rand now st).1
            ≡ (if obj.id == j then ok (obj, bytes) else get os j st))
  unfolding save get
  get-save name content_type bytes rand now st obj j done = elim (Result-cases (new_id rand)) [
    | inl (id, made) ↦ (
      ground arith,
      ground (
        arith,
        eq_iff id j,
        get-set st.objects id j (object_for id name content_type bytes now),
        laws.read-write (path st.dir id) bytes st.disk,
        read-write_file_ne st.dir id j bytes st.disk,
      ),
    )
    | inr (e, no_id) ↦ ground arith
  ]

  save-IsKept :
      (name content_type : String) (bytes : List ℕ) (rand : Result (List ℕ)) (now : ℕ)
      (st : LocalFs D)
      → IsFresh os rand st
      → IsKept os st
      → IsKept os (save os name content_type bytes rand now st).1
  unfolding save
  save-IsKept name content_type bytes rand now st fresh kept j obj here =
      elim (Result-cases (new_id rand)) [
        | inl (id, made) ↦ elim (Result-cases (os.write_file (path st.dir id) bytes st.disk).0) [
          | inl (u, written) ↦ elim (Bool-cases (id == j)) [
            | inl same ↦ (
              bytes,
              ground (arith, eq_iff id j, laws.read-write (path st.dir id) bytes st.disk written),
              ground (arith, get-set st.objects id j (object_for id name content_type bytes now)),
              ground (
                arith,
                eq_iff id j,
                get-set st.objects id j (object_for id name content_type bytes now),
              ),
            )
            | inr other ↦
                let (old, read, size, named) = kept j obj (
                  ground
                    (arith, get-set st.objects id j (object_for id name content_type bytes now))) in
                (
                  old,
                  ground (arith, read-write_file_ne st.dir id j bytes st.disk other),
                  size,
                  named,
                )
          ]
          | inr (e, lost) ↦ elim (Bool-cases (id == j)) [
            | inl same ↦ ground (arith, eq_iff id j, fresh id made)
            | inr other ↦
                let (old, read, size, named) = kept j obj (ground arith) in
                (
                  old,
                  ground (arith, read-write_file_ne st.dir id j bytes st.disk other),
                  size,
                  named,
                )
          ]
        ]
        | inr (e, no_id) ↦
            let (old, read, size, named) = kept j obj (ground arith) in
            (old, ground arith, size, named)
      ]

  -- After any uploads os under unused ids, failed ones too, every capture that is known has its file, of
  -- the size noted for it.
  pub uploads-IsKept :
      (us : List Upload) (st : LocalFs D)
      → AllFresh os us st
      → IsKept os st
      → IsKept os (uploads os us st)
  unfolding uploads
  uploads-IsKept [] st fresh kept = kept
  uploads-IsKept (u ∷ us) st (fresh, later) kept =
      uploads-IsKept us (save os u.name u.content_type u.bytes u.rand u.now st).1 later
        (save-IsKept u.name u.content_type u.bytes u.rand u.now st fresh kept)
