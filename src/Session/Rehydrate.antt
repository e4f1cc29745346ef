-- ===== src/Session/Rehydrate.antt =====
-- What `NewSnapStore` and `NewSolveStore` read back: the records of the durable store.
use tuti_server.Base.{
  String, ◌≡◌, refl, ◌↔◌, All, List, [], ◌∷◌, Option, none, arith, is_plain, Bool-cases, eq_iff,
  contains, if◌then◌else◌, inl, inr,
}
use tuti_server.Errors.{ok, Result-cases, to_option}
use tuti_server.Dict
use tuti_server.Dict.{Dict, get-set, get-empty}
use tuti_server.Session.{Store, Codec, load_record, load_all, rehydrate}
use tuti_server.Session.Laws.{IsStore}

module _ {S A : Type 0} (api : Store S) (codec : Codec A) (kind : String) where
  -- The abstract view of the durable store: the session that can be read back under an id. A text with
  -- a separator is no id: it may stand for a file that is no record of the kind.
  unfoldable pub stored : String → S → Option A
  stored id s = if is_plain id then to_option (load_record api codec kind id s) else none

  get-load_all :
      (ids : List String) (m m' : Dict A) (s : S) (id : String)
      → load_all api codec kind ids m s ≡ ok m'
      → Dict.get m' id
        ≡ (if contains id ids then to_option (load_record api codec kind id s) else Dict.get m id)
  unfolding load_all
  get-load_all [] m m' s id h = ground arith
  get-load_all (x ∷ ids) m m' s id h = elim (Result-cases (load_record api codec kind x s)) [
    | inl (sess, e) ↦
        ground
          (arith, get-load_all ids (Dict.set m x sess) m' s id, get-set m x id sess, eq_iff x id)
    | inr (e, refused) ↦ ground arith
  ]

  -- A start that succeeds holds exactly the sessions that can be read back under an id, which is a text
  -- without a separator.
  pub get-rehydrate :
      IsStore api
      → (s : S) (m : Dict A) (id : String) → rehydrate api codec kind s ≡ ok m
      → Dict.get m id ≡ stored id s
  unfolding rehydrate stored load_record
  get-rehydrate laws s m id h = elim (Result-cases (api.list kind s)) [
    | inl (ids, listed) ↦
        let loaded_all = get-load_all ids Dict.empty m s id (ground arith) in
        elim (Bool-cases (is_plain id)) [
          | inl plain ↦ elim (Result-cases (api.load kind id s)) [
            | inl (bytes, loaded) ↦
                ground
                  (arith, loaded_all, laws.list_complete kind id s ids bytes plain listed loaded)
            | inr (e, refused) ↦ ground (arith, loaded_all, get-empty {V = A} id)
          ]
          | inr other ↦
              ground (arith, loaded_all, laws.list_plain kind id s ids listed, get-empty {V = A} id)
        ]
    | inr (e, refused) ↦ ground arith
  ]

  -- Each of the records can be read back.
  abbrev pub AllRead : List String → S → Type 0
  AllRead ids s = All (λ id. (a : A) × (load_record api codec kind id s ≡ ok a)) ids

  load_all_total :
      (ids : List String) (m : Dict A) (s : S)
      → AllRead ids s
      → (m' : Dict A) × (load_all api codec kind ids m s ≡ ok m')
  unfolding load_all
  load_all_total [] m s h = (m, refl)
  load_all_total (x ∷ ids) m s ((a, e), h) =
      let (m', rest) = load_all_total ids (Dict.set m x a) s h in (m', rw e rest)

  load_all-AllRead :
      (ids : List String) (m m' : Dict A) (s : S)
      → load_all api codec kind ids m s ≡ ok m'
      → AllRead ids s
  unfolding load_all
  load_all-AllRead [] m m' s h = tt
  load_all-AllRead (x ∷ ids) m m' s h = elim (Result-cases (load_record api codec kind x s)) [
    | inl (a, e) ↦ ((a, e), load_all-AllRead ids (Dict.set m x a) m' s (ground arith))
    | inr (e, refused) ↦ ground arith
  ]

  -- A start succeeds exactly when the store can be listed and every listed record can be read back.
  pub rehydrate_ok_iff :
      (s : S)
      → ((m : Dict A) × (rehydrate api codec kind s ≡ ok m))
        ↔ ((ids : List String) × (api.list kind s ≡ ok ids) × AllRead ids s)
  unfolding rehydrate
  rehydrate_ok_iff s = (
    λ (m, started). elim (Result-cases (api.list kind s)) [
      | inl (ids, listed) ↦ (ids, listed, load_all-AllRead ids Dict.empty m s (ground arith))
      | inr (e, refused) ↦ absurd (ground arith)
    ],
    λ (ids, listed, readable).
        let (m, loaded) = load_all_total ids Dict.empty s readable in (m, rw listed loaded),
  )
