-- ===== src/Startup/Captures.antt =====
-- What a restart keeps: the sessions, and not what is known of their captures.
use tuti_server.Base.{String, ◌≡◌, false, arith, ◌==◌, eq_refl}
use tuti_server.Errors.{Result, ok, err, sentinel, storage_not_found}
use tuti_server.Dict
use tuti_server.Dict.{get-empty, get-set}
use tuti_server.Os.{Os}
use tuti_server.Session.{Codec}
use tuti_server.Session.Snap.{SnapSession, submit_response}
use tuti_server.Session.Snap.Effects.{submit_response_ok, done_as}
use tuti_server.Session.Solve.{SolveSession}
use tuti_server.Storage as Storage
use tuti_server.Http.{
  Bytes, handled, failure, said, ◌>>=◌, ◌>>◌, write_json_error, SubmitSnapResponseRequest,
}
use tuti_server.Http.Server.{Server, Outside, Env, snap_store}
use tuti_server.Http.Snap.{handle_submit_snap_response}
use tuti_server.Http.Snap.Flows.{read_response, closed_again}
use tuti_server.Config.{Config}
use tuti_server.Startup.{Started, start}

no_captures_known :
    {D : Type 0} (os : Os D) (snap_codec : Codec SnapSession) (solve_codec : Codec SolveSession)
    (cfg : Config) (d d' : D) (up : Started D)
    → start os snap_codec solve_codec cfg d d' ≡ ok up
    → up.server.captures.objects ≡ Dict.empty
unfolding start Storage.new
no_captures_known os snap_codec solve_codec cfg d d' up e = ground arith

module _ {D : Type 0} (o : Outside D D) where
  capture_not_found :
      (id : String) (st : Storage.LocalFs D)
      → st.objects ≡ Dict.empty
      → Storage.get o.os id st ≡ err (sentinel storage_not_found)
  unfolding Storage.get
  capture_not_found id st e = ground (arith, get-empty {V = Storage.Object} id)

  lost_response :
      (env : Env) (body : Result Bytes) (s : Server D D) (req : SubmitSnapResponseRequest)
      (capture : String)
      → s.captures.objects ≡ Dict.empty
      → read_response o body ≡ ok req
      → (req.session_id == "") ≡ false
      → (req.response_id == "") ≡ false
      → (submit_response o.session_api o.snap_codec req.session_id (snap_store s)).0 ≡ ok capture
      → ((handled (handle_submit_snap_response o env body) s).0
          ≡ record { status = 500; body = failure (said "failed to load capture") })
        × ((handled (handle_submit_snap_response o env body) s).1.snap_sessions
            ≡ (submit_response o.session_api o.snap_codec req.session_id (snap_store s)).1.sessions)
  unfolding handle_submit_snap_response ◌>>=◌ ◌>>◌ write_json_error
  lost_response env body s req capture empty decoded named chosen moved =
      ground (arith, capture_not_found capture s.captures empty)

  -- A server that has just started knows no capture, whatever the disk holds: its first SubmitSnapResponse
  -- for a session that it read back and that waits for a response is answered with 500 where the step can
  -- be saved, and the same request, sent right after it, with 409, which changes nothing.
  pub captures_lost :
      (cfg : Config) (d d' : D) (up : Started D) (env env' : Env) (body : Result Bytes)
      (req : SubmitSnapResponseRequest) (capture : String)
      → start o.os o.snap_codec o.solve_codec cfg d d' ≡ ok up
      → read_response o body ≡ ok req
      → (req.session_id == "") ≡ false
      → (req.response_id == "") ≡ false
      → (submit_response o.session_api o.snap_codec req.session_id (snap_store up.server)).0
        ≡ ok capture
      → let tried = (handled (handle_submit_snap_response o env body) up.server).1 in
        ((handled (handle_submit_snap_response o env body) up.server).0
          ≡ record { status = 500; body = failure (said "failed to load capture") })
        × (handled (handle_submit_snap_response o env' body) tried ≡ (
          record { status = 409; body = failure (said "call is out of order for this session") },
          tried,
        ))
  captures_lost cfg d d' up env env' body req capture started decoded named chosen moved =
      let empty = no_captures_known o.os o.snap_codec o.solve_codec cfg d d' up started in
      let (answer, sessions) =
        lost_response env body up.server req capture empty decoded named chosen moved in
      let (sess, found, waiting, same, after) =
        submit_response_ok o.session_api o.snap_codec req.session_id capture (snap_store up.server)
          moved in
      let tried = (handled (handle_submit_snap_response o env body) up.server).1 in
      (
        answer,
        closed_again o env' body tried req (done_as sess) decoded named chosen
            (ground (
              arith,
              eq_refl req.session_id,
              get-set up.server.snap_sessions req.session_id req.session_id (done_as sess),
            ))
            (ground arith),
      )
