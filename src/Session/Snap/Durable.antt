-- ===== src/Session/Snap/Durable.antt =====
-- The durable store behind `SnapStore`: what it holds after any calls, and what a restart brings back.
use tuti_server.Base.{
  String, ◌≡◌, List, [], ◌∷◌, some, arith, ◌==◌, eq_iff, eq_refl, if◌then◌else◌, inl, inr,
  Bool-cases, is_plain, refl, true, false,
}
use tuti_server.Errors.{Error, ok, err, Result-cases}
use tuti_server.Dict
use tuti_server.Dict.{get-set}
use tuti_server.Session.{Bytes, Store, Codec, load_record, rehydrate}
use tuti_server.Session.Laws.{IsStore, IsAtomic, IsCodec}
use tuti_server.Session.Rehydrate.{stored, get-rehydrate}
use tuti_server.Session.Snap.{SnapSession, SnapStore, snap_kind, new_snap_store, persist}
use tuti_server.Session.Snap.Effects.{sessions-persist}
use tuti_server.Session.Snap.Writes.{Write, IsId, unchanged, failed, committed, step-Write}
use tuti_server.Session.Snap.Trace.{Call, step, run}

module _ {S : Type 0} (api : Store S) (codec : Codec SnapSession) where
  -- Every session in memory can be read back from the durable store.
  abbrev pub IsSynced : SnapStore S → Type 0
  IsSynced st =
      (id : String) (sess : SnapSession)
      → Dict.get st.sessions id ≡ some sess
      → stored api codec snap_kind id st.store ≡ some sess

  module _ (laws : IsStore api) (json : IsCodec codec) where
    others_kept :
        (id j : String) (bytes : Bytes) (s : S)
        → is_plain id ≡ true
        → is_plain j ≡ true
        → (id == j) ≡ false
        → api.load snap_kind j (api.save snap_kind id bytes s).1 ≡ api.load snap_kind j s
    unfolding is_plain
    others_kept id j bytes s p q other =
        laws.load-save_ne snap_kind id snap_kind j bytes s refl (ground arith)
          (ground (arith, eq_refl snap_kind))

    IsId-plain :
        (id : String) (st : SnapStore S) → IsSynced st → IsId api codec id st → is_plain id ≡ true
    unfolding stored
    IsId-plain id st synced (inl plain) = plain
    IsId-plain id st synced (inr (a, here)) = elim (Bool-cases (is_plain id)) [
      | inl plain ↦ plain
      | inr other ↦ absurd (ground (arith, synced id a here))
    ]

    stored-persist :
        (id j : String) (a : SnapSession) (st : SnapStore S)
        → is_plain id ≡ true
        → (persist api codec id a st).0 ≡ ok tt
        → stored api codec snap_kind j (persist api codec id a st).1.store
          ≡ (if id == j then some a else stored api codec snap_kind j st.store)
    unfolding persist stored load_record
    stored-persist id j a st plain saved = elim (Result-cases (codec.marshal a)) [
      | inl (bytes, coded) ↦ elim (Bool-cases (id == j)) [
        | inl same ↦ ground (
          arith,
          eq_iff id j,
          laws.load-save snap_kind id bytes st.store,
          json.unmarshal-marshal a bytes coded,
        )
        | inr other ↦ elim (Bool-cases (is_plain j)) [
          | inl name ↦ ground (arith, others_kept id j bytes st.store plain name other)
          | inr no_name ↦ ground arith
        ]
      ]
      | inr (e, refused) ↦ ground arith
    ]

    -- A failed write leaves the records of the other sessions, and its own if the store is atomic.
    stored-persist_err :
        (id j : String) (a : SnapSession) (st : SnapStore S) (e : Error)
        → is_plain id ≡ true
        → IsAtomic api
        → (persist api codec id a st).0 ≡ err e
        → stored api codec snap_kind j (persist api codec id a st).1.store
          ≡ stored api codec snap_kind j st.store
    unfolding persist stored load_record
    stored-persist_err id j a st e plain atomic lost = elim (Result-cases (codec.marshal a)) [
      | inl (bytes, coded) ↦ elim (Result-cases (api.save snap_kind id bytes st.store).0) [
        | inl (u, saved) ↦ ground arith
        | inr (e', broken) ↦ elim (Bool-cases (id == j)) [
          | inl same ↦
              ground
                (arith, eq_iff id j, atomic.load-save_failed snap_kind id bytes st.store e' broken)
          | inr other ↦ elim (Bool-cases (is_plain j)) [
            | inl name ↦ ground (arith, others_kept id j bytes st.store plain name other)
            | inr no_name ↦ ground arith
          ]
        ]
      ]
      | inr (e', refused) ↦ ground arith
    ]

    Write-IsSynced :
        (st st' : SnapStore S) → IsAtomic api → Write api codec st st' → IsSynced st → IsSynced st'
    Write-IsSynced st st' atomic (unchanged same) synced j a here =
        rw same (synced j a (ground arith))
    Write-IsSynced st st' atomic (failed id sess e is_id lost same) synced j a here = ground (
      arith,
      sessions-persist api codec id sess st,
      stored-persist_err id j sess st e (IsId-plain id st synced is_id) atomic lost,
      synced j a,
    )
    Write-IsSynced st st' atomic (committed id sess is_id saved same) synced j a here = ground (
      arith,
      sessions-persist api codec id sess st,
      stored-persist id j sess st (IsId-plain id st synced is_id) saved,
      get-set st.sessions id j sess,
      synced j a,
    )

    run-IsSynced :
        (cs : List Call) (st : SnapStore S)
        → IsAtomic api
        → IsSynced st
        → IsSynced (run api codec cs st)
    unfolding run
    run-IsSynced [] st atomic synced = synced
    run-IsSynced (c ∷ cs) st atomic synced =
        run-IsSynced cs (step api codec c st) atomic
          (Write-IsSynced st (step api codec c st) atomic (step-Write api codec c st) synced)

    -- Over a store that keeps its contract and whose failed writes leave the old record, and from a state
    -- whose sessions are all in the store: a restart that succeeds, after any calls, succeeding or not,
    -- has every session that memory had, as it was.
    pub restart_recovers :
        (cs : List Call) (st st' : SnapStore S) (id : String) (a : SnapSession)
        → IsAtomic api
        → IsSynced st
        → Dict.get (run api codec cs st).sessions id ≡ some a
        → new_snap_store api codec (run api codec cs st).store ≡ ok st'
        → Dict.get st'.sessions id ≡ some a
    unfolding new_snap_store
    restart_recovers cs st st' id a atomic synced here started =
        elim (Result-cases (rehydrate api codec snap_kind (run api codec cs st).store)) [
          | inl (m, read) ↦ ground (
            arith,
            get-rehydrate api codec snap_kind laws (run api codec cs st).store m id read,
            run-IsSynced cs st atomic synced id a here,
          )
          | inr (e, broken) ↦ ground arith
        ]
