-- ===== src/Session/Snap/Progress.antt =====
-- The flow of a session when the durable store works.
use Prim.Native.String
use tuti_server.Base.{ℕ, String, ◌≡◌, refl, some, arith, encode_hex, eq_refl}
use tuti_server.Errors.{ok}
use tuti_server.Dict
use tuti_server.Dict.{get-set}
use tuti_server.Session.{Bytes, Store, Codec, new_id}
use tuti_server.Session.Snap.{
  SnapSession, SnapStore, init, submit_snap, submit_response, persist, snap_kind, step_await_snap,
  step_await_response,
}
use tuti_server.Session.Snap.Effects.{fresh_at, snapped_as, done_as, init_ok, submit_snap_ok}

module _ {S : Type 0} (api : Store S) (codec : Codec SnapSession) where
  -- Every write succeeds, and every session can be encoded.
  abbrev pub Works : Type 0
  Works =
      ((kind id : String) (bytes : Bytes) (s : S) → (api.save kind id bytes s).0 ≡ ok tt)
      × ((a : SnapSession) → (bytes : Bytes) × (codec.marshal a ≡ ok bytes))

  persist-Works :
      (id : String) (sess : SnapSession) (st : SnapStore S)
      → Works
      → (persist api codec id sess st).0 ≡ ok tt
  unfolding persist
  persist-Works id sess st (writes, encodes) =
      let (bytes, coded) = encodes sess in ground (arith, writes snap_kind id bytes st.store)

  init-Works :
      (rand : Bytes) (now : ℕ) (st : SnapStore S)
      → Works
      → (init api codec (ok rand) now st).0 ≡ ok (String.◌++◌ "snap_" (encode_hex rand))
  unfolding init new_id
  init-Works rand now st works =
      let id : String = String.◌++◌ "snap_" (encode_hex rand) in
      ground (arith, persist-Works id (fresh_at now) st works)

  submit_snap-Works :
      (id capture : String) (sess : SnapSession) (st : SnapStore S)
      → Works
      → Dict.get st.sessions id ≡ some sess
      → sess.step ≡ step_await_snap
      → (submit_snap api codec id capture st).0 ≡ ok tt
  unfolding submit_snap
  submit_snap-Works id capture sess st works found waiting =
      ground (arith, persist-Works id (snapped_as capture sess) st works)

  submit_response-Works :
      (id : String) (sess : SnapSession) (st : SnapStore S)
      → Works
      → Dict.get st.sessions id ≡ some sess
      → sess.step ≡ step_await_response
      → (submit_response api codec id st).0 ≡ ok sess.capture_id
  unfolding submit_response
  submit_response-Works id sess st works found waiting =
      ground (arith, persist-Works id (done_as sess) st works)

  -- With random bytes at hand and a durable store that works, a new session goes through its three steps
  -- without an error, whatever the other sessions are, and its response has the capture of its snap.
  pub session_completes :
      (rand : Bytes) (now : ℕ) (capture : String) (st : SnapStore S)
      → Works
      → let id : String = String.◌++◌ "snap_" (encode_hex rand) in
        let st1 = (init api codec (ok rand) now st).1 in
        let st2 = (submit_snap api codec id capture st1).1 in
        ((init api codec (ok rand) now st).0 ≡ ok id)
        × ((submit_snap api codec id capture st1).0 ≡ ok tt)
        × ((submit_response api codec id st2).0 ≡ ok capture)
  session_completes rand now capture st works =
      let id : String = String.◌++◌ "snap_" (encode_hex rand) in
      let st1 : SnapStore S = (init api codec (ok rand) now st).1 in
      let st2 : SnapStore S = (submit_snap api codec id capture st1).1 in
      let opens = init-Works rand now st works in
      let (made, opened) = init_ok api codec (ok rand) now st id opens in
      let here1 : Dict.get st1.sessions id ≡ some (fresh_at now) =
        ground (arith, eq_refl id, get-set st.sessions id id (fresh_at now)) in
      let takes = submit_snap-Works id capture (fresh_at now) st1 works here1 refl in
      let (sess, found, first, moved) = submit_snap_ok api codec id capture st1 takes in
      let here2 : Dict.get st2.sessions id ≡ some (snapped_as capture sess) =
        ground (arith, eq_refl id, get-set st1.sessions id id (snapped_as capture sess)) in
      (opens, takes, submit_response-Works id (snapped_as capture sess) st2 works here2 refl)
