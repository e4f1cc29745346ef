-- ===== src/Http/Routes.antt =====
-- internal/httpapi/server.go and middleware.go: which handler a request reaches. Headers, tracing and
-- the recovery from panics are left out.
use tuti_server.Base.{String, Bool, ◌==◌, ◌&&◌, ◌||◌, if◌then◌else◌, Option, none, some}
use tuti_server.Errors.{Result}
use tuti_server.Http.{Bytes, Response, H, handled, respond, health, empty}
use tuti_server.Http.Server.{Server, Outside, Env}
use tuti_server.Http.Captures.{handle_upload_screenshot, handle_list_captures}
use tuti_server.Http.Snap.{
  handle_initialize_snap_and_solve, handle_submit_snap, handle_submit_snap_response,
}
use tuti_server.Http.Analyze.{handle_create_session, handle_analyze_assets}
use tuti_server.Http.Lessons.{handle_get_lesson_content, handle_dev_prompt}

pub record Request : Type 0 where
  pub method : String
  pub path : String
  pub body : Result Bytes

-- The handlers that `Routes` registers.
pub data Endpoint : Type 0 where
  health_check upload_screenshot list_captures initialize_snap_and_solve submit_snap : Endpoint
  submit_snap_response create_session analyze_assets get_lesson_content dev_prompt : Endpoint

-- `handleHealth`
unfoldable pub handle_health : {S : Type 0} → H S Response
handle_health = respond (record { status = 200; body = health })

abbrev post_endpoint : Bool → String → Option Endpoint
post_endpoint dev_mode path =
    if path == "/v1/UploadScreenshot"
    then some upload_screenshot
    else if path == "/v1/ListCaptures"
    then some list_captures
    else if path == "/v1/InitializeSnapAndSolve"
    then some initialize_snap_and_solve
    else if path == "/v1/SubmitSnap"
    then some submit_snap
    else if path == "/v1/SubmitSnapResponse"
    then some submit_snap_response
    else if path == "/v1/CreateSession"
    then some create_session
    else if path == "/v1/AnalyzeAssets"
    then some analyze_assets
    else if path == "/v1/GetLessonContent"
    then some get_lesson_content
    else if dev_mode && path == "/dev/Prompt"
    then some dev_prompt
    else none

-- The patterns of `Routes`; the mux lets a `GET` pattern match `HEAD` too.
unfoldable pub endpoint_of : Bool → String → String → Option Endpoint
endpoint_of dev_mode method path =
    if (method == "GET" || method == "HEAD") && path == "/healthz"
    then some health_check
    else if method == "POST"
    then post_endpoint dev_mode path
    else none

-- `mux_error` is what `http.ServeMux` answers when no pattern matches.
module _ {S D : Type 0} (o : Outside S D) (mux_error : Request → Response) (env : Env) where
  unfoldable pub call_endpoint : Endpoint → Result Bytes → H (Server S D) Response
  unfolding handle_health
  call_endpoint health_check body = handle_health
  call_endpoint upload_screenshot body = handle_upload_screenshot o env body
  call_endpoint list_captures body = handle_list_captures o env body
  call_endpoint initialize_snap_and_solve body = handle_initialize_snap_and_solve o env body
  call_endpoint submit_snap body = handle_submit_snap o env body
  call_endpoint submit_snap_response body = handle_submit_snap_response o env body
  call_endpoint create_session body = handle_create_session o env body
  call_endpoint analyze_assets body = handle_analyze_assets o env body
  call_endpoint get_lesson_content body = handle_get_lesson_content o env body
  call_endpoint dev_prompt body = handle_dev_prompt o env body

  -- `Routes`, with `withCORS` before it
  unfoldable pub serve : Request → Server S D → Response × Server S D
  unfolding endpoint_of
  serve req s =
      if req.method == "OPTIONS"
      then (record { status = 204; body = empty }, s)
      else elim (endpoint_of s.dev_mode req.method req.path) [
        | some e ↦ handled (call_endpoint e req.body) s
        | none ↦ (mux_error req, s)
      ]
