-- ===== src/Http/Snap.antt =====
-- internal/httpapi/snap.go
pub mod Flows
pub mod Display
pub mod Photo
use tuti_server.Base.{
  ℕ, String, Bool, List, [], ◌∷◌, Option, none, some, ◌==◌, is_empty, if◌then◌else◌,
}
use tuti_server.Errors.{Error, Result, ok, err, M, errors_is, session_not_found, wrong_step}
use tuti_server.Errors
use tuti_server.Proto.{
  NextStep, capture_snap, capture_snap_response, display_analysis, DisplayAnalysisStep, Problem,
  Mistake, get_topic,
}
use tuti_server.Catalog.Topics.{snap_options, lessons_and_problems_for_topic}
use tuti_server.Session.Snap
use tuti_server.Storage
use tuti_server.Analysis.Provider.{Image}
use tuti_server.Analysis.Analyzer.{Logs, ExtractResult, EvaluateResult, extract, evaluate}
use tuti_server.Http.{
  Bytes, Response, H, look, ◌>>=◌, ◌>>◌, or_stop, attempt, refuse_if, respond, bad_request,
  read_proto, write_proto, write_json_error, said, started, next, default_max_body_bytes,
}
use tuti_server.Http.Image.{detect_image_content_type}
use tuti_server.Http.Server.{Server, Outside, Env, on_captures, on_snap, on_logs}

-- `writeSnapSessionError`
unfoldable pub write_snap_session_error : Error → Response
unfolding write_json_error
write_snap_session_error e =
    if errors_is e session_not_found
    then write_json_error 404 (said "session not found")
    else if errors_is e wrong_step
    then write_json_error 409 (said "call is out of order for this session")
    else write_json_error 500 (said "session error")

module _ {S D : Type 0} (o : Outside S D) (env : Env) where
  -- `handleInitializeSnapAndSolve`
  unfoldable pub handle_initialize_snap_and_solve : Result Bytes → H (Server S D) Response
  unfolding write_json_error
  handle_initialize_snap_and_solve body = do
    or_stop (read_proto o.unmarshal_empty tt default_max_body_bytes body) bad_request
    id ←
        attempt (on_snap (Snap.init o.session_api o.snap_codec env.rand env.now))
          (λ _. write_json_error 500 (said "failed to start session"))
    respond (write_proto o.marshal 200 (started id capture_snap))

  -- `handleSubmitSnap`
  unfoldable pub handle_submit_snap : Result Bytes → H (Server S D) Response
  unfolding write_json_error
  handle_submit_snap body = do
    limit ← look (λ s. s.max_upload_bytes)
    req ←
        or_stop
          (read_proto o.unmarshal_submit_snap
            (record { session_id = ""; bytes = []; filename = "" }) limit body)
          bad_request
    refuse_if (req.session_id == "") (write_json_error 400 (said "sessionId is required"))
    refuse_if (is_empty req.bytes) (write_json_error 400 (said "data is required"))
    content_type ←
        or_stop (detect_image_content_type o.detect o.unicode_lower req.bytes req.filename)
          bad_request
    obj ←
        attempt
          (on_captures (Storage.save o.os req.filename content_type req.bytes env.rand env.now))
          (λ _. write_json_error 500 (said "failed to store upload"))
    attempt (on_snap (Snap.submit_snap o.session_api o.snap_codec req.session_id obj.id))
        write_snap_session_error
    respond (write_proto o.marshal 200 (next (capture_snap_response snap_options)))

  -- The answers of `buildDisplayAnalysis` to the two judgments.
  unfoldable pub evaluated_step : EvaluateResult → DisplayAnalysisStep
  evaluated_step result =
      let (lessons, similar) =
        lessons_and_problems_for_topic o.unicode_lower result.problem.topic in
      record {
        lessons_to_review = lessons;
        problems_captured =
            record {
              problem = some result.problem;
              mistakes = result.mistakes;
              similar_problems = similar;
            }
            ∷ [];
      }

  unfoldable pub extracted_step : ExtractResult → DisplayAnalysisStep
  extracted_step result =
      if result.blank
      then record {
        lessons_to_review = (lessons_and_problems_for_topic o.unicode_lower "").0;
        problems_captured = [];
      }
      else let (lessons, similar) =
          lessons_and_problems_for_topic o.unicode_lower (get_topic result.problem) in
        record {
          lessons_to_review = lessons;
          problems_captured =
              record { problem = result.problem; mistakes = []; similar_problems = similar } ∷ [];
        }

  -- `buildDisplayAnalysis`
  unfoldable pub build_display_analysis : String → Image → M Logs DisplayAnalysisStep
  build_display_analysis response_id img logs =
      let (evaluation, logs_evaluate) =
        evaluate env.backend o.settings o.prompts o.unmarshal_evaluate (img ∷ []) env.rand logs in
      let (extraction, logs_extract) =
        extract env.backend o.settings o.prompts o.unmarshal_extract (img ∷ []) env.rand logs in
      if response_id == "check_work"
      then (Errors.bind evaluation (λ result. ok (evaluated_step result)), logs_evaluate)
      else (Errors.bind extraction (λ result. ok (extracted_step result)), logs_extract)

  -- `handleSubmitSnapResponse`
  unfoldable pub handle_submit_snap_response : Result Bytes → H (Server S D) Response
  unfolding write_json_error
  handle_submit_snap_response body = do
    req ←
        or_stop
          (read_proto o.unmarshal_response (record { session_id = ""; response_id = "" })
            default_max_body_bytes body)
          bad_request
    refuse_if (req.session_id == "") (write_json_error 400 (said "sessionId is required"))
    refuse_if (req.response_id == "") (write_json_error 400 (said "responseId is required"))
    capture_id ←
        attempt (on_snap (Snap.submit_response o.session_api o.snap_codec req.session_id))
          write_snap_session_error
    read ← look (λ s. Storage.get o.os capture_id s.captures)
    found ← or_stop read (λ _. write_json_error 500 (said "failed to load capture"))
    step ←
        attempt
          (on_logs (
            build_display_analysis req.response_id
              (record { bytes = found.1; content_type = found.0.content_type })))
          (λ _. write_json_error 502 (said "analysis failed"))
    respond (write_proto o.marshal 200 (next (display_analysis step)))
