-- ===== src/Http/Refused.antt =====
-- The requests that are refused, and what a refusal leaves of the server.
pub mod Rules
pub mod Unchanged
use tuti_server.Base.{
  ℕ, ◌<◌, String, Bool, true, false, ◌≡◌, ◌≢◌, refl, ◌⊎◌, inl, inr, List, [], ◌∷◌, Option, none,
  some, arith, length, Bool-cases, Option-cases, ◌==◌, eq_iff,
}
use tuti_server.Errors.{Error, Result, ok, err, Result-cases, errorf, wrapf}
use tuti_server.Http.{
  Bytes, Response, H, ◌>>=◌, ◌>>◌, handled, read_proto, read_all, write_proto, write_json_error,
  default_max_body_bytes,
}
use tuti_server.Http.Server.{Server, Outside, Env}
use tuti_server.Http.Captures.{handle_upload_screenshot, handle_list_captures}
use tuti_server.Http.Snap.{
  handle_initialize_snap_and_solve, handle_submit_snap, handle_submit_snap_response,
  write_snap_session_error,
}
use tuti_server.Http.Analyze.{handle_create_session, handle_analyze_assets}
use tuti_server.Http.Lessons.{handle_get_lesson_content, handle_dev_prompt}
use tuti_server.Http.Routes.{
  Request, Endpoint, health_check, upload_screenshot, list_captures, initialize_snap_and_solve,
  submit_snap, submit_snap_response, create_session, analyze_assets, get_lesson_content, dev_prompt,
  endpoint_of, call_endpoint, serve,
}

-- The bound on the body of a request to an endpoint that reads it.
abbrev pub body_limit : ℕ → Endpoint → Option ℕ
body_limit max_upload health_check = none
body_limit max_upload list_captures = none
body_limit max_upload upload_screenshot = some max_upload
body_limit max_upload submit_snap = some max_upload
body_limit max_upload initialize_snap_and_solve = some default_max_body_bytes
body_limit max_upload submit_snap_response = some default_max_body_bytes
body_limit max_upload create_session = some default_max_body_bytes
body_limit max_upload analyze_assets = some default_max_body_bytes
body_limit max_upload get_lesson_content = some default_max_body_bytes
body_limit max_upload dev_prompt = some default_max_body_bytes

abbrev too_large : Error
too_large = errorf "http: request body too large" []

read_proto_oversized :
    {A : Type 0} (unmarshal : Bytes → Result A) (zero : A) (limit : ℕ) (bytes : Bytes)
    → limit < length bytes
    → read_proto unmarshal zero limit (ok bytes)
      ≡ err (wrapf "request body too large or unreadable: %w" [] too_large)
unfolding read_proto read_all
read_proto_oversized unmarshal zero limit bytes h = ground arith

read_all_oversized :
    (limit : ℕ) (bytes : Bytes) → limit < length bytes → read_all limit (ok bytes) ≡ err too_large
unfolding read_all
read_all_oversized limit bytes h = ground arith

-- The dev prompt can be reached in dev mode only.
pub dev_prompt_guarded : (method path : String) → endpoint_of false method path ≢ some dev_prompt
unfolding endpoint_of
dev_prompt_guarded method path h = ground arith

module _ {S D : Type 0} (o : Outside S D) (env : Env) where
  -- A body over the bound of its endpoint is answered with 400 and changes nothing.
  pub oversized_refused :
      (mux_error : Request → Response) (e : Endpoint) (limit : ℕ) (bytes : Bytes) (s : Server S D)
      → body_limit s.max_upload_bytes e ≡ some limit
      → limit < length bytes
      → ((handled (call_endpoint o mux_error env e (ok bytes)) s).0.status ≡ 400)
        × ((handled (call_endpoint o mux_error env e (ok bytes)) s).1 ≡ s)
  unfolding ◌>>=◌ ◌>>◌ call_endpoint write_json_error handle_upload_screenshot handle_submit_snap
      handle_initialize_snap_and_solve handle_submit_snap_response handle_create_session
      handle_analyze_assets handle_get_lesson_content handle_dev_prompt
  oversized_refused mux_error health_check limit bytes s bounded over = ground arith
  oversized_refused mux_error list_captures limit bytes s bounded over = ground arith
  oversized_refused mux_error upload_screenshot limit bytes s bounded over =
      let refused =
        read_proto_oversized o.unmarshal_upload (record { bytes = []; filename = "" }) limit bytes
          over in
      (ground (arith, refused), ground (arith, refused))
  oversized_refused mux_error submit_snap limit bytes s bounded over =
      let refused =
        read_proto_oversized o.unmarshal_submit_snap
          (record { session_id = ""; bytes = []; filename = "" }) limit bytes over in
      (ground (arith, refused), ground (arith, refused))
  oversized_refused mux_error initialize_snap_and_solve limit bytes s bounded over =
      let refused = read_proto_oversized o.unmarshal_empty (tt) limit bytes over in
      (ground (arith, refused), ground (arith, refused))
  oversized_refused mux_error submit_snap_response limit bytes s bounded over =
      let refused =
        read_proto_oversized o.unmarshal_response (record { session_id = ""; response_id = "" })
          limit bytes over in
      (ground (arith, refused), ground (arith, refused))
  oversized_refused mux_error create_session limit bytes s bounded over =
      let refused = read_proto_oversized o.unmarshal_empty (tt) limit bytes over in
      (ground (arith, refused), ground (arith, refused))
  oversized_refused mux_error analyze_assets limit bytes s bounded over =
      let refused =
        read_proto_oversized o.unmarshal_analyze (record { session_id = ""; asset_ids = [] }) limit
          bytes over in
      (ground (arith, refused), ground (arith, refused))
  oversized_refused mux_error get_lesson_content limit bytes s bounded over =
      let refused =
        read_proto_oversized o.unmarshal_lesson (record { lesson_id = ""; language = "" }) limit
          bytes over in
      (ground (arith, refused), ground (arith, refused))
  oversized_refused mux_error dev_prompt limit bytes s bounded over =
      let refused = read_all_oversized limit bytes over in
      (ground (arith, refused), ground (arith, refused))
