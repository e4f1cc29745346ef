-- ===== src/Session/Snap/Effects.antt =====
-- What each method of `SnapStore` does to the sessions in memory, when it succeeds and when it fails.
use tuti_server.Base.{ℕ, String, ◌≡◌, inl, inr, some, arith, Option-cases}
use tuti_server.Errors.{Error, Result, ok, err, Result-cases}
use tuti_server.Dict
use tuti_server.Session.{Bytes, Store, Codec, new_id}
use tuti_server.Session.Snap.{
  SnapSession, SnapStore, init, submit_snap, submit_response, persist, step_await_snap,
  step_await_response, step_done,
}

abbrev pub snapped_as : String → SnapSession → SnapSession
snapped_as capture sess = record sess { capture_id = capture; step = step_await_response }

abbrev pub done_as : SnapSession → SnapSession
done_as sess = record sess { step = step_done }

abbrev pub fresh_at : ℕ → SnapSession
fresh_at now = record { step = step_await_snap; capture_id = ""; created_at = now }

module _ {S : Type 0} (api : Store S) (codec : Codec SnapSession) where
  pub sessions-persist :
      (id : String) (sess : SnapSession) (st : SnapStore S)
      → (persist api codec id sess st).1.sessions ≡ st.sessions
  unfolding persist
  sessions-persist id sess st = ground arith

  -- A call that reports an error has left every session in memory as it was.
  pub submit_snap_err :
      (id capture : String) (st : SnapStore S) (e : Error)
      → (submit_snap api codec id capture st).0 ≡ err e
      → (submit_snap api codec id capture st).1.sessions ≡ st.sessions
  unfolding submit_snap
  submit_snap_err id capture st e h = elim (Option-cases (Dict.get st.sessions id)) [
    | inl none_here ↦ ground arith
    | inr (sess, found) ↦ ground (arith, sessions-persist id (snapped_as capture sess) st)
  ]

  pub submit_snap_ok :
      (id capture : String) (st : SnapStore S)
      → (submit_snap api codec id capture st).0 ≡ ok tt
      → (sess : SnapSession) × (Dict.get st.sessions id ≡ some sess)
        × (sess.step ≡ step_await_snap)
        × ((submit_snap api codec id capture st).1.sessions
            ≡ Dict.set st.sessions id (snapped_as capture sess))
  unfolding submit_snap
  submit_snap_ok id capture st h = elim (Option-cases (Dict.get st.sessions id)) [
    | inl none_here ↦ ground arith
    | inr (sess, found) ↦ (
      sess,
      found,
      ground arith,
      ground (arith, sessions-persist id (snapped_as capture sess) st),
    )
  ]

  pub submit_response_err :
      (id : String) (st : SnapStore S) (e : Error)
      → (submit_response api codec id st).0 ≡ err e
      → (submit_response api codec id st).1.sessions ≡ st.sessions
  unfolding submit_response
  submit_response_err id st e h = elim (Option-cases (Dict.get st.sessions id)) [
    | inl none_here ↦ ground arith
    | inr (sess, found) ↦ ground (arith, sessions-persist id (done_as sess) st)
  ]

  pub submit_response_ok :
      (id capture : String) (st : SnapStore S)
      → (submit_response api codec id st).0 ≡ ok capture
      → (sess : SnapSession) × (Dict.get st.sessions id ≡ some sess)
        × (sess.step ≡ step_await_response)
        × (sess.capture_id ≡ capture)
        × ((submit_response api codec id st).1.sessions ≡ Dict.set st.sessions id (done_as sess))
  unfolding submit_response
  submit_response_ok id capture st h = elim (Option-cases (Dict.get st.sessions id)) [
    | inl none_here ↦ ground arith
    | inr (sess, found) ↦ (
      sess,
      found,
      ground arith,
      ground arith,
      ground (arith, sessions-persist id (done_as sess) st),
    )
  ]

  pub init_ok :
      (rand : Result Bytes) (now : ℕ) (st : SnapStore S) (id : String)
      → (init api codec rand now st).0 ≡ ok id
      → (new_id "snap_" rand ≡ ok id)
        × ((init api codec rand now st).1.sessions ≡ Dict.set st.sessions id (fresh_at now))
  unfolding init
  init_ok rand now st id h = elim (Result-cases (new_id "snap_" rand)) [
    | inl (j, made) ↦
        let fact = sessions-persist j (fresh_at now) st in (ground arith, ground (arith, fact))
    | inr (e, failed) ↦ ground arith
  ]

  pub init_err :
      (rand : Result Bytes) (now : ℕ) (st : SnapStore S) (e : Error)
      → (init api codec rand now st).0 ≡ err e
      → (init api codec rand now st).1.sessions ≡ st.sessions
  unfolding init
  init_err rand now st e h = elim (Result-cases (new_id "snap_" rand)) [
    | inl (j, made) ↦ ground (arith, sessions-persist j (fresh_at now) st)
    | inr (e', failed) ↦ ground arith
  ]
