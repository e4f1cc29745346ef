-- ===== src/Session/Snap/History.antt =====
-- What a client may rely on between two calls for the same session, whatever other calls come in
-- between.
use tuti_server.Base.{String, ◌≡◌, refl, ◌≢◌, List, arith, eq_refl}
use tuti_server.Errors.{ok, err, sentinel, wrong_step}
use tuti_server.Dict.{get-set}
use tuti_server.Session.{Store, Codec}
use tuti_server.Session.Snap.{
  SnapSession, SnapStore, submit_snap, submit_response, step_done, step_await_snap,
}
use tuti_server.Session.Snap.Effects.{snapped_as, done_as, submit_snap_ok, submit_response_ok}
use tuti_server.Session.Snap.Trace.{
  Call, Advance, stays, snapped, answered, run, AllFresh, run_keeps,
}

-- The session has its photo, and it is this one.
abbrev Captured : String → SnapSession → Type 0
Captured capture a = (a.capture_id ≡ capture) × (step_await_snap ≢ a.step)

Captured-Advance :
    (capture : String) (a b : SnapSession) → Advance a b → Captured capture a → Captured capture b
Captured-Advance capture a b (stays e) h = ground arith
Captured-Advance capture a b (snapped e f) h = ground arith
Captured-Advance capture a b (answered e f g) h = ground arith

IsDone-Advance : (a b : SnapSession) → Advance a b → a.step ≡ step_done → b.step ≡ step_done
IsDone-Advance a b (stays e) h = ground arith
IsDone-Advance a b (snapped e f) h = ground arith
IsDone-Advance a b (answered e f g) h = ground arith

module _ {S : Type 0} (api : Store S) (codec : Codec SnapSession) where
  -- After a successful SubmitSnap for a session, and any calls whose new ids are not in use, a
  -- SubmitResponse for that session that succeeds returns the capture of that SubmitSnap.
  pub response_returns_snap :
      (id capture answer : String) (cs : List Call) (st : SnapStore S)
      → (submit_snap api codec id capture st).0 ≡ ok tt
      → AllFresh api codec cs (submit_snap api codec id capture st).1
      → (submit_response api codec id (run api codec cs (submit_snap api codec id capture st).1)).0
        ≡ ok answer
      → answer ≡ capture
  response_returns_snap id capture answer cs st sent fresh got =
      let (sess, found, awaits, eq) = submit_snap_ok api codec id capture st sent in
      let (b, there, kept) =
        run_keeps api codec (Captured capture) (Captured-Advance capture) cs
          (submit_snap api codec id capture st).1 id (snapped_as capture sess) fresh
          (rw eq (rw get-set (rw eq_refl refl))) (refl, ground arith) in
      let (c, here, _, same, _) = submit_response_ok api codec id answer _ got in ground arith

  -- After a successful SubmitResponse for a session, and any calls whose new ids are not in use, both
  -- SubmitSnap and SubmitResponse for it report the wrong step and change nothing.
  pub answered_once :
      (id capture again : String) (cs : List Call) (st : SnapStore S)
      → (submit_response api codec id st).0 ≡ ok capture
      → AllFresh api codec cs (submit_response api codec id st).1
      → let later = run api codec cs (submit_response api codec id st).1 in
        (submit_response api codec id later ≡ (err (sentinel wrong_step), later))
        × (submit_snap api codec id again later ≡ (err (sentinel wrong_step), later))
  unfolding submit_snap submit_response
  answered_once id capture again cs st answer fresh =
      let (sess, found, awaits, same, eq) = submit_response_ok api codec id capture st answer in
      let (b, there, kept) =
        run_keeps api codec (λ a. a.step ≡ step_done) IsDone-Advance cs
          (submit_response api codec id st).1 id (done_as sess) fresh
          (rw eq (rw get-set (rw eq_refl refl))) refl in
      (ground arith, ground arith)
