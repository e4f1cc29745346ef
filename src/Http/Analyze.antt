-- ===== src/Http/Analyze.antt =====
-- internal/httpapi/analyze.go
pub mod Assets
use tuti_server.Base.{String, not, List, [], ◌∷◌, Option, none, some, ◌==◌, is_empty, if◌then◌else◌}
use tuti_server.Errors.{
  Error, Result, ok, err, errors_is, storage_not_found, map_err, bind, str, to_option,
}
use tuti_server.Proto.{Problem, AnalyzeAssetsResult, blank, problems_found, unspecified, get_topic}
use tuti_server.Catalog.Topics.{topics, problems, lessons_and_problems_for_topic}
use tuti_server.Session.Solve
use tuti_server.Os.{Os}
use tuti_server.Storage
use tuti_server.Storage.{LocalFs}
use tuti_server.Analysis.Provider.{Image}
use tuti_server.Analysis.Analyzer.{ExtractResult, extract}
use tuti_server.Http.{
  Bytes, Response, H, look, settle, ◌>>=◌, ◌>>◌, Flow, stop, go, or_stop, attempt, refuse_if,
  respond, bad_request, read_proto, write_proto, write_json_error, said, formatted, session,
  analyzed, default_max_body_bytes,
}
use tuti_server.Http.Server.{Server, Outside, Env, solve_store, on_solve, on_logs}
use tuti_server.Http.Captures.{unix_milli}

-- What the loop over the asset ids writes when a capture does not load.
unfoldable pub asset_error : String → Error → Response
unfolding write_json_error
asset_error id e =
    if errors_is e storage_not_found
    then write_json_error 404 (formatted "capture %s not found" (str id ∷ []))
    else write_json_error 500 (said "failed to load capture")

abbrev load_image : {D : Type 0} → Os D → LocalFs D → String → Flow Image
load_image os st id = elim (Storage.get os id st) [
  | ok found ↦ go (record { bytes = found.1; content_type = found.0.content_type })
  | err e ↦ stop (asset_error id e)
]

-- The image of the first id in front of the images of the others.
abbrev and_images : Flow Image → Flow (List Image) → Flow (List Image)
and_images (stop r) rest = stop r
and_images (go img) (stop r) = stop r
and_images (go img) (go imgs) = go (img ∷ imgs)

-- The loop of `handleAnalyzeAssets`: it stops at the first capture that does not load.
unfoldable pub load_images : {D : Type 0} → Os D → LocalFs D → List String → Flow (List Image)
unfolding asset_error
load_images os st [] = go []
load_images os st (id ∷ ids) =
    let rest = load_images os st ids in and_images (load_image os st id) rest

-- `catalog.Problems[id]`; a missing id gives a message with no field set
abbrev problem_at : String → Problem
problem_at id = elim (problems id) [
  | some p ↦ p
  | none ↦ record {
    id = "";
    title = "";
    topic = "";
    difficulty = unspecified;
    statement = [];
    hints = [];
    solution = [];
  }
]

module _ {S D : Type 0} (o : Outside S D) (env : Env) where
  -- `handleCreateSession`
  unfoldable pub handle_create_session : Result Bytes → H (Server S D) Response
  unfolding write_json_error
  handle_create_session body = do
    or_stop (read_proto o.unmarshal_empty tt default_max_body_bytes body) bad_request
    sess ←
        attempt (on_solve (Solve.create o.session_api o.solve_codec env.rand env.now))
          (λ _. write_json_error 500 (said "failed to create session"))
    respond (write_proto o.marshal 200 (session sess.id (unix_milli sess.created_at)))

  -- The answer to the judgment
  unfoldable pub analyze_result : ExtractResult → AnalyzeAssetsResult
  analyze_result result =
      if result.blank
      then blank topics (problem_at "prob_quad_1" ∷ problem_at "prob_pyth_1" ∷ [])
      else problems_found (result.problem ∷ [])
          (lessons_and_problems_for_topic o.unicode_lower (get_topic result.problem)).1

  -- `handleAnalyzeAssets`
  unfoldable pub handle_analyze_assets : Result Bytes → H (Server S D) Response
  unfolding write_json_error
  handle_analyze_assets body = do
    req ←
        or_stop
          (read_proto o.unmarshal_analyze (record { session_id = ""; asset_ids = [] })
            default_max_body_bytes body)
          bad_request
    refuse_if (req.session_id == "") (write_json_error 400 (said "sessionId is required"))
    known ← look (λ s. Solve.exists (solve_store s) req.session_id)
    refuse_if (not known) (write_json_error 404 (said "session not found"))
    refuse_if (is_empty req.asset_ids) (write_json_error 400 (said "assetIds is required"))
    loaded ← look (λ s. load_images o.os s.captures req.asset_ids)
    images ← settle loaded
    result ←
        attempt
          (on_logs (extract env.backend o.settings o.prompts o.unmarshal_extract images env.rand))
          (λ _. write_json_error 502 (said "analysis failed"))
    respond (write_proto o.marshal 200 (analyzed (analyze_result result)))
