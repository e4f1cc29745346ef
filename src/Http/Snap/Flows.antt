-- ===== src/Http/Snap/Flows.antt =====
-- One session across the requests of the Snap & Solve flow.
use tuti_server.Base.{
  String, ◌≡◌, ◌≢◌, ◌⊎◌, inl, inr, false, some, arith, ◌==◌, eq_refl, Bool-cases,
}
use tuti_server.Errors.{Result, ok, err, Result-cases, sentinel, wrong_step}
use tuti_server.Dict
use tuti_server.Dict.{get-set}
use tuti_server.Session.{Store, Codec}
use tuti_server.Session.Snap.{SnapSession, SnapStore, submit_response, step_await_response}
use tuti_server.Session.Snap.Effects.{submit_response_ok, done_as}
use tuti_server.Http.{
  Bytes, Response, handled, failure, said, ◌>>=◌, ◌>>◌, read_proto, write_json_error,
  default_max_body_bytes, SubmitSnapResponseRequest,
}
use tuti_server.Http.Server.{Server, Outside, Env, snap_store}
use tuti_server.Http.Snap.{handle_submit_snap_response, write_snap_session_error}

pub submit_response_wrong_step :
    {S : Type 0} (api : Store S) (codec : Codec SnapSession) (id : String) (sess : SnapSession)
    (st : SnapStore S)
    → Dict.get st.sessions id ≡ some sess
    → sess.step ≢ step_await_response
    → submit_response api codec id st ≡ (err (sentinel wrong_step), st)
unfolding submit_response
submit_response_wrong_step api codec id sess st found other = ground arith

module _ {S D : Type 0} (o : Outside S D) where
  abbrev pub read_response : Result Bytes → Result SubmitSnapResponseRequest
  read_response body =
      read_proto o.unmarshal_response (record { session_id = ""; response_id = "" })
        default_max_body_bytes body

  abbrev WasAnalysed : Response → Type 0
  WasAnalysed r = (r.status ≡ 200) ⊎ (r.status ≡ 502)

  -- A request that came as far as the analysis has moved its session on.
  analysed_submitted :
      (env : Env) (body : Result Bytes) (s : Server S D)
      → WasAnalysed (handled (handle_submit_snap_response o env body) s).0
      → (req : SubmitSnapResponseRequest) × (read_response body ≡ ok req)
        × ((req.session_id == "") ≡ false)
        × ((req.response_id == "") ≡ false)
        × (capture : String) × ((submit_response o.session_api o.snap_codec req.session_id
              (snap_store s)).0
            ≡ ok capture)
        × ((handled (handle_submit_snap_response o env body) s).1.snap_sessions
            ≡ (submit_response o.session_api o.snap_codec req.session_id (snap_store s)).1.sessions)
  unfolding handle_submit_snap_response ◌>>=◌ ◌>>◌ write_snap_session_error write_json_error
  analysed_submitted env body s answered = elim (Result-cases (read_response body)) [
    | inl (req, decoded) ↦ elim (Bool-cases (req.session_id == "")) [
      | inl blank ↦ ground arith
      | inr named ↦ elim (Bool-cases (req.response_id == "")) [
        | inl blank ↦ ground arith
        | inr chosen ↦
            elim (Result-cases
              (submit_response o.session_api o.snap_codec req.session_id (snap_store s)).0) [
                | inl (capture, moved) ↦ (req, decoded, named, chosen, capture, moved, ground arith)
                | inr (e, refused) ↦ ground arith
              ]
      ]
    ]
    | inr (e, unread) ↦ ground arith
  ]

  -- A request for a session that does not wait for a response is refused.
  pub closed_again :
      (env : Env) (body : Result Bytes) (s : Server S D) (req : SubmitSnapResponseRequest)
      (sess : SnapSession)
      → read_response body ≡ ok req
      → (req.session_id == "") ≡ false
      → (req.response_id == "") ≡ false
      → Dict.get s.snap_sessions req.session_id ≡ some sess
      → sess.step ≢ step_await_response
      → handled (handle_submit_snap_response o env body) s ≡ (
        record { status = 409; body = failure (said "call is out of order for this session") },
        s,
      )
  unfolding handle_submit_snap_response ◌>>=◌ ◌>>◌ write_snap_session_error write_json_error
  closed_again env body s req sess decoded named chosen found other =
      let refused =
        submit_response_wrong_step o.session_api o.snap_codec req.session_id sess (snap_store s)
          found other in
      ground (arith, refused)

  -- A response that was answered with an analysis, or with a failure of the analysis, closes the
  -- session: the same request, sent right after it, is answered with 409 and changes nothing.
  pub response_closes_session :
      (env env' : Env) (body : Result Bytes) (s : Server S D)
      → WasAnalysed (handled (handle_submit_snap_response o env body) s).0
      → let closed = (handled (handle_submit_snap_response o env body) s).1 in
        handled (handle_submit_snap_response o env' body) closed ≡ (
          record { status = 409; body = failure (said "call is out of order for this session") },
          closed,
        )
  unfolding handle_submit_snap_response ◌>>=◌ ◌>>◌ write_snap_session_error write_json_error
  response_closes_session env env' body s answered =
      let (req, decoded, named, chosen, capture, moved, after) =
        analysed_submitted env body s answered in
      let (sess, found, waiting, same, sessions) =
        submit_response_ok o.session_api o.snap_codec req.session_id capture (snap_store s) moved in
      let closed = (handled (handle_submit_snap_response o env body) s).1 in
      closed_again env' body closed req (done_as sess) decoded named chosen
        (ground (
          arith,
          eq_refl req.session_id,
          get-set s.snap_sessions req.session_id req.session_id (done_as sess),
        ))
        (ground arith)
