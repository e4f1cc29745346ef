-- ===== src/Http/Snap/Photo.antt =====
-- The photo of a session, from its upload to the analysis, and the uploads that no session takes.
use tuti_server.Base.{
  ℕ, String, ◌≡◌, refl, ◌⊎◌, inl, inr, false, [], some, arith, ◌==◌, is_empty, eq_refl, Bool-cases,
}
use tuti_server.Errors.{Error, Result, ok, err, Result-cases}
use tuti_server.Dict
use tuti_server.Dict.{get-set}
use tuti_server.Proto.{display_analysis, capture_snap_response, DisplayAnalysisStep}
use tuti_server.Catalog.Topics.{snap_options}
use tuti_server.Os.{IsOs}
use tuti_server.Session.{Store, Codec}
use tuti_server.Session.Snap.{
  SnapSession, SnapStore, submit_snap, submit_response, persist, step_await_response,
}
use tuti_server.Session.Snap.Effects.{submit_snap_ok, submit_snap_err, done_as, snapped_as}
use tuti_server.Storage
use tuti_server.Storage.{Object}
use tuti_server.Storage.Kept.{get-save}
use tuti_server.Http.{
  Bytes, Response, handled, failure, next, said, ◌>>=◌, ◌>>◌, read_proto, write_proto,
  write_json_error, SubmitSnapRequest, SubmitSnapResponseRequest,
}
use tuti_server.Http.Image.{detect_image_content_type}
use tuti_server.Http.Server.{Server, Outside, Env, snap_store}
use tuti_server.Http.Snap.{
  handle_submit_snap, handle_submit_snap_response, write_snap_session_error, build_display_analysis,
}
use tuti_server.Http.Snap.Flows.{read_response}

module _ {S : Type 0} (api : Store S) (codec : Codec SnapSession) where
  -- A session that waits for a response gives its capture, unless the durable store refuses.
  submit_response_waiting :
      (id : String) (sess : SnapSession) (st : SnapStore S)
      → Dict.get st.sessions id ≡ some sess
      → sess.step ≡ step_await_response
      → ((e : Error) × ((persist api codec id (done_as sess) st).0 ≡ err e)
          × ((submit_response api codec id st).0 ≡ err e))
        ⊎ ((submit_response api codec id st).0 ≡ ok sess.capture_id)
  unfolding submit_response
  submit_response_waiting id sess st found waiting =
      elim (Result-cases (persist api codec id (done_as sess) st).0) [
        | inl (u, kept) ↦ inr (ground arith)
        | inr (e, lost) ↦ inl (e, lost, ground arith)
      ]

module _ {S D : Type 0} (o : Outside S D) where
  abbrev pub read_snap : ℕ → Result Bytes → Result SubmitSnapRequest
  read_snap limit body =
      read_proto o.unmarshal_submit_snap (record { session_id = ""; bytes = []; filename = "" })
        limit body

  abbrev snap_answer : Result (Unit {0}) → Response
  snap_answer (ok u) = write_proto o.marshal 200 (next (capture_snap_response snap_options))
  snap_answer (err e) = write_snap_session_error e

  abbrev pub analysis_answer : Result DisplayAnalysisStep → Response
  analysis_answer (ok step) = write_proto o.marshal 200 (next (display_analysis step))
  analysis_answer (err e) = record { status = 502; body = failure (said "analysis failed") }

  -- What a request has done that reached the session, however that ended.
  abbrev Stored : Env → Server S D → SubmitSnapRequest → Response × Server S D → Type 0
  Stored env s req (r, s') =
      ((req.session_id == "") ≡ false)
      × (content_type : String) × (detect_image_content_type o.detect o.unicode_lower req.bytes
            req.filename
          ≡ ok content_type)
      × (obj : Object) × ((Storage.save o.os req.filename content_type req.bytes env.rand env.now
            s.captures).0
          ≡ ok obj)
      × (s'.captures
          ≡ (Storage.save o.os req.filename content_type req.bytes env.rand env.now s.captures).1)
      × (r
          ≡ snap_answer
              (submit_snap o.session_api o.snap_codec req.session_id obj.id (snap_store s)).0)
      × (s'.snap_sessions
          ≡ (submit_snap o.session_api o.snap_codec req.session_id obj.id
              (snap_store s)).1.sessions)

  -- The statuses that follow on a call of the session: its success and its two own refusals.
  abbrev ReachedSession : Response → Type 0
  ReachedSession r = (r.status ≡ 200) ⊎ ((r.status ≡ 404) ⊎ (r.status ≡ 409))

  submit_snap-Stored :
      (env : Env) (body : Result Bytes) (s : Server S D) (req : SubmitSnapRequest)
      → read_snap s.max_upload_bytes body ≡ ok req
      → ReachedSession (handled (handle_submit_snap o env body) s).0
      → Stored env s req (handled (handle_submit_snap o env body) s)
  unfolding handle_submit_snap ◌>>=◌ ◌>>◌ write_snap_session_error write_json_error
  submit_snap-Stored env body s req decoded reached = elim (Bool-cases (req.session_id == "")) [
    | inl blank ↦ ground arith
    | inr named ↦ elim (Bool-cases (is_empty req.bytes)) [
      | inl blank ↦ ground arith
      | inr sent ↦
          elim (Result-cases
            (detect_image_content_type o.detect o.unicode_lower req.bytes req.filename)) [
              | inl (ct, detected) ↦
                  elim (Result-cases
                    (Storage.save o.os req.filename ct req.bytes env.rand env.now s.captures).0) [
                      | inl (obj, saved) ↦ (
                        named,
                        ct,
                        detected,
                        obj,
                        saved,
                        ground arith,
                        ground arith,
                        ground arith,
                      )
                      | inr (e, lost) ↦ ground arith
                    ]
              | inr (e, unknown) ↦ ground arith
            ]
    ]
  ]

  -- The session is checked after the photo is stored: when a request is refused because the session is
  -- unknown or at another step, the photo stays on the server, and the sessions are as before.
  pub refused_snap_stored :
      (env : Env) (body : Result Bytes) (s : Server S D) (req : SubmitSnapRequest)
      → IsOs o.os
      → read_snap s.max_upload_bytes body ≡ ok req
      → ((handled (handle_submit_snap o env body) s).0.status ≡ 404)
        ⊎ ((handled (handle_submit_snap o env body) s).0.status ≡ 409)
      → ((handled (handle_submit_snap o env body) s).1.snap_sessions ≡ s.snap_sessions)
        × (obj : Object) × (Storage.get o.os obj.id
              (handled (handle_submit_snap o env body) s).1.captures
            ≡ ok (obj, req.bytes))
  unfolding write_proto write_json_error
  refused_snap_stored env body s req laws decoded refused =
      let (named, ct, detected, obj, saved, captures, answer, sessions) =
        submit_snap-Stored env body s req decoded (inr refused) in
      let (same, got) =
        get-save o.os laws req.filename ct req.bytes env.rand env.now s.captures obj obj.id saved in
      (
        elim (Result-cases
            (submit_snap o.session_api o.snap_codec req.session_id obj.id (snap_store s)).0) [
              | inl (u, moved) ↦ ground arith
              | inr (e, stuck) ↦ ground (
                arith,
                submit_snap_err o.session_api o.snap_codec req.session_id obj.id (snap_store s) e,
              )
            ],
        obj,
        ground (arith, eq_refl obj.id, got, captures),
      )

  response_refused :
      (env : Env) (body : Result Bytes) (s : Server S D) (reply : SubmitSnapResponseRequest)
      (e : Error)
      → read_response o body ≡ ok reply
      → (reply.session_id == "") ≡ false
      → (reply.response_id == "") ≡ false
      → (submit_response o.session_api o.snap_codec reply.session_id (snap_store s)).0 ≡ err e
      → (handled (handle_submit_snap_response o env body) s).0 ≡ write_snap_session_error e
  unfolding handle_submit_snap_response ◌>>=◌ ◌>>◌
  response_refused env body s reply e decoded named chosen refused = ground arith

  response_analysed :
      (env : Env) (body : Result Bytes) (s : Server S D) (reply : SubmitSnapResponseRequest)
      (capture : String) (obj : Object) (bytes : Bytes)
      → read_response o body ≡ ok reply
      → (reply.session_id == "") ≡ false
      → (reply.response_id == "") ≡ false
      → (submit_response o.session_api o.snap_codec reply.session_id (snap_store s)).0 ≡ ok capture
      → Storage.get o.os capture s.captures ≡ ok (obj, bytes)
      → (handled (handle_submit_snap_response o env body) s).0
        ≡ analysis_answer
            (build_display_analysis o env reply.response_id
              (record { bytes = bytes; content_type = obj.content_type })
              s.logs).0
  unfolding handle_submit_snap_response ◌>>=◌ ◌>>◌ write_json_error
  response_analysed env body s reply capture obj bytes decoded named chosen moved got =
      elim (Result-cases
        (build_display_analysis o env reply.response_id
          (record { bytes = bytes; content_type = obj.content_type }) s.logs).0) [
            | inl (step, done) ↦ ground arith
            | inr (e, failed) ↦ ground arith
          ]

  -- The photo that SubmitSnap accepted for a session is the one that SubmitSnapResponse analyses, of the
  -- detected type and with the student's choice, unless the durable store refuses to keep the step.
  pub photo_is_analysed :
      (env env' : Env) (body body' : Result Bytes) (s : Server S D) (req : SubmitSnapRequest)
      (reply : SubmitSnapResponseRequest)
      → IsOs o.os
      → read_snap s.max_upload_bytes body ≡ ok req
      → read_response o body' ≡ ok reply
      → reply.session_id ≡ req.session_id
      → (reply.response_id == "") ≡ false
      → (handled (handle_submit_snap o env body) s).0.status ≡ 200
      → let s1 = (handled (handle_submit_snap o env body) s).1 in
        let answer = (handled (handle_submit_snap_response o env' body') s1).0 in
        ((e : Error) × (sess : SnapSession) × ((persist o.session_api o.snap_codec req.session_id
              sess
              (snap_store s1)).0
            ≡ err e)
          × (answer ≡ write_snap_session_error e))
        ⊎ ((content_type : String) × (detect_image_content_type o.detect o.unicode_lower req.bytes
                req.filename
              ≡ ok content_type)
            × (answer
                ≡ analysis_answer
                    (build_display_analysis o env' reply.response_id
                      (record { bytes = req.bytes; content_type = content_type })
                      s1.logs).0))
  unfolding write_proto write_json_error write_snap_session_error
  photo_is_analysed env env' body body' s req reply laws decoded decoded' same chosen done =
      let s1 : Server S D = (handled (handle_submit_snap o env body) s).1 in
      let (named, ct, detected, obj, saved, captures, answer, sessions) =
        submit_snap-Stored env body s req decoded (inl done) in
      let (is_object, got) =
        get-save o.os laws req.filename ct req.bytes env.rand env.now s.captures obj obj.id saved in
      elim (Result-cases
        (submit_snap o.session_api o.snap_codec req.session_id obj.id (snap_store s)).0) [
          | inr (e, stuck) ↦ ground arith
          | inl (u, moved) ↦
              let (sess, found, first, after) =
                submit_snap_ok o.session_api o.snap_codec req.session_id obj.id (snap_store s)
                  moved in
              elim (submit_response_waiting o.session_api o.snap_codec req.session_id
                (snapped_as obj.id sess) (snap_store s1)
                (ground (
                  arith,
                  eq_refl req.session_id,
                  get-set s.snap_sessions req.session_id req.session_id (snapped_as obj.id sess),
                ))
                refl) [
                  | inl (e, lost, refused) ↦ inl (
                    e,
                    done_as (snapped_as obj.id sess),
                    lost,
                    response_refused env' body' s1 reply e decoded' (ground (arith, same, named))
                        chosen (ground (arith, same, refused)),
                  )
                  | inr given ↦ inr (
                    ct,
                    detected,
                    ground (
                      arith,
                      is_object,
                      response_analysed env' body' s1 reply obj.id obj req.bytes decoded'
                          (ground (arith, same, named)) chosen (ground (arith, same, given))
                          (ground (arith, eq_refl obj.id, got, captures)),
                    ),
                  )
                ]
        ]
