-- ===== src/Session/Snap/Trace.antt =====
-- The state machine of a Snap & Solve session, over any sequence of calls on a `SnapStore`.
use tuti_server.Base.{
  ℕ, String, ◌≡◌, refl, List, [], ◌∷◌, none, some, arith, ◌==◌, eq_iff, inl, inr, Bool-cases,
}
use tuti_server.Errors.{Result, ok, Result-cases}
use tuti_server.Dict
use tuti_server.Dict.{get-set}
use tuti_server.Session.{Bytes, Store, Codec, new_id}
use tuti_server.Session.Snap.{
  SnapSession, SnapStore, init, submit_snap, submit_response, step_await_snap, step_await_response,
  step_done,
}
use tuti_server.Session.Snap.Effects.{
  snapped_as, done_as, submit_snap_ok, submit_snap_err, submit_response_ok, submit_response_err,
  init_ok, init_err,
}

-- A call from a client, with the random bytes and the time that `Init` meets.
pub data Call : Type 0 where
  inits : Result Bytes → ℕ → Call
  snaps : String → String → Call
  responds : String → Call

-- What a call may do to one session.
pub data Advance (a b : SnapSession) : Type 0 where
  stays : b ≡ a → Advance a b
  snapped : a.step ≡ step_await_snap → b.step ≡ step_await_response → Advance a b
  answered :
      a.step ≡ step_await_response → b.step ≡ step_done → b.capture_id ≡ a.capture_id → Advance a b

module _ {S : Type 0} (api : Store S) (codec : Codec SnapSession) where
  unfoldable pub step : Call → SnapStore S → SnapStore S
  step (inits rand now) st = (init api codec rand now st).1
  step (snaps id capture) st = (submit_snap api codec id capture st).1
  step (responds id) st = (submit_response api codec id st).1

  unfoldable pub run : List Call → SnapStore S → SnapStore S
  run [] st = st
  run (c ∷ cs) st = run cs (step c st)

  -- `Init` draws an id that is not in use.
  abbrev pub IsFresh : Call → SnapStore S → Type 0
  IsFresh (inits rand now) st =
      (id : String) → new_id "snap_" rand ≡ ok id → Dict.get st.sessions id ≡ none
  IsFresh (snaps id capture) st = Unit
  IsFresh (responds id) st = Unit

  abbrev pub AllFresh : List Call → SnapStore S → Type 0
  AllFresh [] st = Unit
  AllFresh (c ∷ cs) st = IsFresh c st × AllFresh cs (step c st)

  -- Whatever the call and its outcome, a session stays as it is or takes one step forward, provided that
  -- Init draws an id that is not in use.
  pub step-Advance :
      (c : Call) (st : SnapStore S) (id : String) (a : SnapSession)
      → IsFresh c st
      → Dict.get st.sessions id ≡ some a
      → (b : SnapSession) × (Dict.get (step c st).sessions id ≡ some b) × Advance a b
  unfolding step
  step-Advance (inits rand now) st id a fresh here =
      elim (Result-cases (init api codec rand now st).0) [
        | inl (j, done) ↦
            let (made, eq) = init_ok api codec rand now st j done in
            (a, rw eq (rw get-set (ground (arith, eq_iff j id, fresh j made))), stays refl)
        | inr (e, failed) ↦ (a, rw (init_err api codec rand now st e failed) here, stays refl)
      ]
  step-Advance (snaps j capture) st id a fresh here =
      elim (Result-cases (submit_snap api codec j capture st).0) [
        | inl (u, done) ↦
            let (sess, found, awaits, eq) = submit_snap_ok api codec j capture st done in
            elim (Bool-cases (j == id)) [
              | inl same ↦ (
                snapped_as capture sess,
                rw eq (rw get-set (rw same refl)),
                snapped (ground (arith, eq_iff j id)) refl,
              )
              | inr other ↦ (a, rw eq (rw get-set (rw other here)), stays refl)
            ]
        | inr (e, failed) ↦
            (a, rw (submit_snap_err api codec j capture st e failed) here, stays refl)
      ]
  step-Advance (responds j) st id a fresh here =
      elim (Result-cases (submit_response api codec j st).0) [
        | inl (capture, done) ↦
            let (sess, found, awaits, _, eq) = submit_response_ok api codec j capture st done in
            elim (Bool-cases (j == id)) [
              | inl same ↦ (
                done_as sess,
                rw eq (rw get-set (rw same refl)),
                answered (ground (arith, eq_iff j id)) refl (ground (arith, eq_iff j id)),
              )
              | inr other ↦ (a, rw eq (rw get-set (rw other here)), stays refl)
            ]
        | inr (e, failed) ↦ (a, rw (submit_response_err api codec j st e failed) here, stays refl)
      ]

  -- What every step forward keeps, a run of calls keeps.
  pub run_keeps :
      (P : SnapSession → Type 0)
      → ((a b : SnapSession) → Advance a b → P a → P b)
      → (cs : List Call) (st : SnapStore S) (id : String) (a : SnapSession) → AllFresh cs st
      → Dict.get st.sessions id ≡ some a
      → P a
      → (b : SnapSession) × (Dict.get (run cs st).sessions id ≡ some b) × P b
  unfolding run
  run_keeps P keep [] st id a fresh here p = (a, here, p)
  run_keeps P keep (c ∷ cs) st id a (fresh, later) here p =
      let (b, there, adv) = step-Advance c st id a fresh here in
      run_keeps P keep cs (step c st) id b later there (keep a b adv p)
