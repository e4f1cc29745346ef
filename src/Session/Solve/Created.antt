-- ===== src/Session/Solve/Created.antt =====
-- `Exists` after `Create`, now and after a restart.
use tuti_server.Base.{
  ℕ, String, ◌≡◌, Bool, true, false, some, arith, ◌==◌, ◌||◌, inl, inr, refl, is_plain,
}
use tuti_server.Errors.{Result, ok, err, Result-cases}
use tuti_server.Dict.{get-set}
use tuti_server.Session.{Bytes, Store, Codec, new_id, load_record, rehydrate}
use tuti_server.Session.Ids.{new_id-is_plain}
use tuti_server.Session.Laws.{IsStore, IsCodec}
use tuti_server.Session.Rehydrate.{stored, get-rehydrate}
use tuti_server.Session.Solve.{
  SolveSession, SolveStore, solve_kind, create, exists, new_solve_store,
}

abbrev pub returned_id : Result SolveSession → String → Bool
returned_id (ok sess) j = sess.id == j
returned_id (err e) j = false

module _ {S : Type 0} (api : Store S) (codec : Codec SolveSession) where
  -- After Create, Exists answers yes for the id that Create returned, if it returned one, and as before
  -- for every other id.
  pub exists-create :
      (rand : Result Bytes) (now : ℕ) (st : SolveStore S) (j : String)
      → exists (create api codec rand now st).1 j
        ≡ (returned_id (create api codec rand now st).0 j || exists st j)
  unfolding exists create
  exists-create rand now st j = elim (Result-cases (new_id "sess_" rand)) [
    | inl (id, made) ↦
        ground (arith, get-set st.sessions id j (record { id = id; created_at = now }))
    | inr (e', no_id) ↦ ground arith
  ]

  create_saved :
      (rand : Result Bytes) (now : ℕ) (st : SolveStore S) (sess : SolveSession)
      → (create api codec rand now st).0 ≡ ok sess
      → (bytes : Bytes) × (codec.marshal sess ≡ ok bytes)
        × ((api.save solve_kind sess.id bytes st.store).0 ≡ ok tt)
        × ((create api codec rand now st).1.store ≡ (api.save solve_kind sess.id bytes st.store).1)
  unfolding create
  create_saved rand now st sess done = elim (Result-cases (new_id "sess_" rand)) [
    | inl (id, made) ↦ elim (Result-cases (codec.marshal (record { id = id; created_at = now }))) [
      | inl (bytes, coded) ↦ (bytes, ground arith, ground arith, ground arith)
      | inr (e, refused) ↦ ground arith
    ]
    | inr (e, no_id) ↦ ground arith
  ]

  created_plain :
      (rand : Result Bytes) (now : ℕ) (st : SolveStore S) (sess : SolveSession)
      → (create api codec rand now st).0 ≡ ok sess
      → is_plain sess.id ≡ true
  unfolding create is_plain
  created_plain rand now st sess done = elim (Result-cases (new_id "sess_" rand)) [
    | inl (id, made) ↦ ground (arith, new_id-is_plain "sess_" id rand refl made)
    | inr (e, no_id) ↦ ground arith
  ]

  stored_created :
      IsStore api
      → IsCodec codec
      → (rand : Result Bytes) (now : ℕ) (st : SolveStore S) (sess : SolveSession)
      → (create api codec rand now st).0 ≡ ok sess
      → stored api codec solve_kind sess.id (create api codec rand now st).1.store ≡ some sess
  unfolding stored load_record
  stored_created laws json rand now st sess done =
      let (bytes, coded, saved, same) = create_saved rand now st sess done in
      rw same (
        ground (
          arith,
          created_plain rand now st sess done,
          laws.load-save solve_kind sess.id bytes st.store saved,
          json.unmarshal-marshal sess bytes coded,
        ))

  -- A session that Create returned is known after a restart that succeeds.
  pub created_survives :
      IsStore api
      → IsCodec codec
      → (rand : Result Bytes) (now : ℕ) (st st' : SolveStore S) (sess : SolveSession)
      → (create api codec rand now st).0 ≡ ok sess
      → new_solve_store api codec (create api codec rand now st).1.store ≡ ok st'
      → exists st' sess.id ≡ true
  unfolding exists new_solve_store
  created_survives laws json rand now st st' sess done started =
      let s : S = (create api codec rand now st).1.store in
      elim (Result-cases (rehydrate api codec solve_kind s)) [
        | inl (m, read) ↦ ground (
          arith,
          get-rehydrate api codec solve_kind laws s m sess.id read,
          stored_created laws json rand now st sess done,
        )
        | inr (e, broken) ↦ ground arith
      ]
