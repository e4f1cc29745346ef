-- ===== src/Filestore/Names.antt =====
-- The paths of the records, and the ids of the files in a directory.
use Prim.Native.String
use text.Mathlib.TextLemmas.{append_cancel_right}
use tuti_server.Base.{
  ◌+◌, String, ◌≡◌, true, false, List, [], ◌∷◌, ◌++◌, length, arith, ◌==◌, ◌&&◌, eq_iff, contains,
  inl, inr, length-append, trim_suffix-append, trim_suffix, trim_suffix-plain, is_plain, is_name,
  is_name-json, All, Bool-cases, ap, ◌∙◌, sym,
}
use tuti_server.Os.{FilePath, Entry, has_file, has_entry}
use tuti_server.Os.Paths.{join, join_name, join_file}
use tuti_server.Filestore.{FileStore, ids_of, path}

-- Two records have one path only if they are the same record.
ends_injective :
    (dir : FilePath) (kind name kind' name' : String)
    → (dir ++ (kind ∷ [])) ++ (name ∷ []) ≡ (dir ++ (kind' ∷ [])) ++ (name' ∷ [])
    → (kind ≡ kind') × (name ≡ name')
ends_injective [] kind name kind' name' e = (cc, cc)
ends_injective (x ∷ dir) kind name kind' name' e = ends_injective dir kind name kind' name' (cc)

path_of_names :
    (s : FileStore) (kind id : String)
    → is_name kind ≡ true
    → is_plain id ≡ true
    → path s kind id ≡ (s.dir ++ (kind ∷ [])) ++ (String.◌++◌ id ".json" ∷ [])
path_of_names s kind id k i =
    join_file s.dir kind id i
    ∙ ap (λ p. p ++ (String.◌++◌ id ".json" ∷ [])) (join_name s.dir kind k)

pub path_injective :
    (s : FileStore) (kind id kind' id' : String)
    → (is_name kind && is_name kind') ≡ true
    → (is_plain id && is_plain id') ≡ true
    → path s kind id ≡ path s kind' id'
    → (kind ≡ kind') × (id ≡ id')
path_injective s kind id kind' id' k i e =
    let (same_kind, same_name) =
      ends_injective s.dir kind (String.◌++◌ id ".json") kind' (String.◌++◌ id' ".json") (
        sym (path_of_names s kind id (ground arith) (ground arith))
        ∙ e
        ∙ path_of_names s kind' id' (ground arith) (ground arith)) in
    (same_kind, append_cancel_right id id' ".json" same_name)

pub length-path :
    (s : FileStore) (kind id : String)
    → is_name kind ≡ true
    → is_plain id ≡ true
    → length (path s kind id) ≡ length s.dir + 2
length-path s kind id k i =
    ap length (path_of_names s kind id k i)
    ∙ omega (
      arith,
      length-append (s.dir ++ (kind ∷ [])) (String.◌++◌ id ".json" ∷ []),
      length-append s.dir (kind ∷ []),
    )

pub length-dir :
    (s : FileStore) (kind : String)
    → is_name kind ≡ true
    → length (join s.dir (kind ∷ [])) ≡ length s.dir + 1
length-dir s kind k = ap length (join_name s.dir kind k) ∙ length-append s.dir (kind ∷ [])

pub contains-ids_of :
    (id : String) (es : List Entry)
    → has_file (String.◌++◌ id ".json") es ≡ true
    → contains id (ids_of es) ≡ true
unfolding ids_of
contains-ids_of id [] h = cc
contains-ids_of id (e ∷ es) h = ground (
  arith,
  contains-ids_of id es,
  eq_iff e.name (String.◌++◌ id ".json"),
  trim_suffix-append id ".json",
  eq_iff id id,
)

pub ids_of-plain :
    (id : String) (es : List Entry)
    → All (λ e. is_plain e.name ≡ true) es
    → contains id (ids_of es) ≡ true
    → is_plain id ≡ true
unfolding ids_of
ids_of-plain id [] plain h = absurd (ground arith)
ids_of-plain id (e ∷ es) (p, plain) h = ground (
  arith,
  ids_of-plain id es plain,
  trim_suffix-plain e.name ".json" p,
  eq_iff (trim_suffix e.name ".json") id,
)

-- A directory in which the store alone has written: it holds records and nothing else.
abbrev pub Records : List Entry → Type 0
Records = All (λ e. (e.is_dir ≡ false) × (id : String) × (e.name ≡ String.◌++◌ id ".json"))

same_record : (i j : String) → (String.◌++◌ i ".json" == String.◌++◌ j ".json") ≡ (i == j)
same_record i j = elim (Bool-cases (String.◌++◌ i ".json" == String.◌++◌ j ".json")) [
  | inl h ↦ ground (
    arith,
    eq_iff i j,
    append_cancel_right i j ".json" ((eq_iff (String.◌++◌ i ".json") (String.◌++◌ j ".json")).0 h),
  )
  | inr h ↦ ground (arith, eq_iff i j, eq_iff (String.◌++◌ i ".json") (String.◌++◌ j ".json"))
]

pub Records-ids_of :
    (id : String) (es : List Entry)
    → Records es
    → (has_file (String.◌++◌ id ".json") es ≡ contains id (ids_of es))
      × (has_entry (String.◌++◌ id ".json") es ≡ contains id (ids_of es))
unfolding ids_of
Records-ids_of id [] own = (ground arith, ground arith)
Records-ids_of id (e ∷ es) ((file, j, named), own) =
    let (f, g) = Records-ids_of id es own in
    let ids = trim_suffix-append j ".json" in
    let same = same_record j id in
    rw file (rw named (rw ids (rw same (ground arith, ground arith))))

pub json_plain : (id : String) → is_plain id ≡ true → is_plain (String.◌++◌ id ".json") ≡ true
json_plain id plain = ground (arith, is_name-json id plain)
