-- ===== src/Http/Refused/Unchanged.antt =====
-- A handler answers 400 before it has changed anything.
use tuti_server.Base.{[], ◌≡◌, refl, arith, ◌==◌, Option-cases, inl, inr, Bool-cases}
use tuti_server.Errors.{Result, wrapf}
use tuti_server.Http.{Bytes, Response, write_json_error, shown}
use tuti_server.Http.Server.{Server, Outside, Env}
use tuti_server.Http.Captures.{handle_upload_screenshot, handle_list_captures}
use tuti_server.Http.Snap.{
  handle_initialize_snap_and_solve, handle_submit_snap, handle_submit_snap_response,
}
use tuti_server.Http.Analyze.{handle_create_session, handle_analyze_assets}
use tuti_server.Http.Lessons.{handle_get_lesson_content, handle_dev_prompt}
use tuti_server.Http.Routes.{
  Request, Endpoint, health_check, upload_screenshot, list_captures, initialize_snap_and_solve,
  submit_snap, submit_snap_response, create_session, analyze_assets, get_lesson_content, dev_prompt,
  endpoint_of, call_endpoint, serve,
}
use tuti_server.Http.Refused.Rules.{
  KeepsAt, Accepts-KeepsAt, or_stop-KeepsAt, look-KeepsAt, look-Accepts, settle-KeepsAt,
  attempt-Accepts, refuse_if-KeepsAt, or_stop_then-KeepsAt, attempt_then-Accepts, respond-Accepts,
  session_error_other, replied-Accepts, other_status, or_stop_said-Accepts, attempt_said-Accepts,
  other_200, other_201, other_500, other_502,
}

module _ {S D : Type 0} (o : Outside S D) (env : Env) (s : Server S D) where
  upload_screenshot-KeepsAt :
      (body : Result Bytes) → KeepsAt s (handle_upload_screenshot o env body)
  unfolding handle_upload_screenshot
  upload_screenshot-KeepsAt body = look-KeepsAt s _ _ (
      or_stop-KeepsAt s _ _ _ λ req. refuse_if-KeepsAt s _ _ _ (
        or_stop-KeepsAt s _ _ _ λ ct.
          Accepts-KeepsAt s _
            (attempt_said-Accepts _ _ _ _ other_500 λ obj. respond-Accepts _ _ _ _ other_201)))

  list_captures-KeepsAt : (body : Result Bytes) → KeepsAt s (handle_list_captures o env body)
  unfolding handle_list_captures
  list_captures-KeepsAt body = Accepts-KeepsAt s _ (
      look-Accepts _ _ λ loaded.
        or_stop_said-Accepts _ _ _ _ other_500 λ captures. respond-Accepts _ _ _ _ other_200)

  initialize_snap_and_solve-KeepsAt :
      (body : Result Bytes) → KeepsAt s (handle_initialize_snap_and_solve o env body)
  unfolding handle_initialize_snap_and_solve
  initialize_snap_and_solve-KeepsAt body = or_stop_then-KeepsAt s _ _ _ (
      Accepts-KeepsAt s _
        (attempt_said-Accepts _ _ _ _ other_500 λ id. respond-Accepts _ _ _ _ other_200))

  submit_snap-KeepsAt : (body : Result Bytes) → KeepsAt s (handle_submit_snap o env body)
  unfolding handle_submit_snap
  submit_snap-KeepsAt body = look-KeepsAt s _ _ (
      or_stop-KeepsAt s _ _ _ λ req. refuse_if-KeepsAt s _ _ _ (
        refuse_if-KeepsAt s _ _ _ (
          or_stop-KeepsAt s _ _ _ λ ct. Accepts-KeepsAt s _ (
            attempt_said-Accepts _ _ _ _ other_500 λ obj.
              attempt_then-Accepts _ _ _ session_error_other (respond-Accepts _ _ _ _ other_200)))))

  submit_snap_response-KeepsAt :
      (body : Result Bytes) → KeepsAt s (handle_submit_snap_response o env body)
  unfolding handle_submit_snap_response
  submit_snap_response-KeepsAt body = or_stop-KeepsAt s _ _ _ λ req. refuse_if-KeepsAt s _ _ _ (
      refuse_if-KeepsAt s _ _ _ (
        Accepts-KeepsAt s _ (
          attempt-Accepts _ _ _ session_error_other λ capture. look-Accepts _ _ λ read.
            or_stop_said-Accepts _ _ _ _ other_500 λ found.
              attempt_said-Accepts _ _ _ _ other_502 λ step. respond-Accepts _ _ _ _ other_200)))

  create_session-KeepsAt : (body : Result Bytes) → KeepsAt s (handle_create_session o env body)
  unfolding handle_create_session
  create_session-KeepsAt body = or_stop_then-KeepsAt s _ _ _ (
      Accepts-KeepsAt s _
        (attempt_said-Accepts _ _ _ _ other_500 λ sess. respond-Accepts _ _ _ _ other_200))

  analyze_assets-KeepsAt : (body : Result Bytes) → KeepsAt s (handle_analyze_assets o env body)
  unfolding handle_analyze_assets
  analyze_assets-KeepsAt body = or_stop-KeepsAt s _ _ _ λ req. refuse_if-KeepsAt s _ _ _ (
      look-KeepsAt s _ _ (
        refuse_if-KeepsAt s _ _ _ (
          refuse_if-KeepsAt s _ _ _ (
            look-KeepsAt s _ _ (
              settle-KeepsAt s _ _ λ images. Accepts-KeepsAt s _ (
                attempt_said-Accepts _ _ _ _ other_502
                  λ result. respond-Accepts _ _ _ _ other_200))))))

  get_lesson_content-KeepsAt :
      (body : Result Bytes) → KeepsAt s (handle_get_lesson_content o env body)
  unfolding handle_get_lesson_content
  get_lesson_content-KeepsAt body =
      or_stop-KeepsAt s _ _ _
        λ req. refuse_if-KeepsAt s _ _ _ (Accepts-KeepsAt s _ (respond-Accepts _ _ _ _ other_200))

  dev_prompt-KeepsAt : (body : Result Bytes) → KeepsAt s (handle_dev_prompt o env body)
  unfolding handle_dev_prompt
  dev_prompt-KeepsAt body = or_stop-KeepsAt s _ _ _ λ bytes. or_stop-KeepsAt s _ _ _ λ prompt.
      refuse_if-KeepsAt s _ _ _ (
        Accepts-KeepsAt s _ (
          attempt-Accepts _ (λ e. write_json_error 502 (shown (wrapf "provider error: %w" [] e))) _
            (λ e. other_status (shown (wrapf "provider error: %w" [] e)) 502 other_502)
            λ reply. replied-Accepts _ reply))

  call_endpoint-KeepsAt :
      (mux_error : Request → Response) (e : Endpoint) (body : Result Bytes)
      → KeepsAt s (call_endpoint o mux_error env e body)
  unfolding call_endpoint KeepsAt
  call_endpoint-KeepsAt mux_error health_check body = λ h. refl
  call_endpoint-KeepsAt mux_error upload_screenshot body = upload_screenshot-KeepsAt body
  call_endpoint-KeepsAt mux_error list_captures body = list_captures-KeepsAt body
  call_endpoint-KeepsAt mux_error initialize_snap_and_solve body =
      initialize_snap_and_solve-KeepsAt body
  call_endpoint-KeepsAt mux_error submit_snap body = submit_snap-KeepsAt body
  call_endpoint-KeepsAt mux_error submit_snap_response body = submit_snap_response-KeepsAt body
  call_endpoint-KeepsAt mux_error create_session body = create_session-KeepsAt body
  call_endpoint-KeepsAt mux_error analyze_assets body = analyze_assets-KeepsAt body
  call_endpoint-KeepsAt mux_error get_lesson_content body = get_lesson_content-KeepsAt body
  call_endpoint-KeepsAt mux_error dev_prompt body = dev_prompt-KeepsAt body

  -- A request that is answered with 400 has changed nothing, whatever its method and path.
  pub bad_request_unchanged :
      (mux_error : Request → Response) (req : Request)
      → (serve o mux_error env req s).0.status ≡ 400
      → (serve o mux_error env req s).1 ≡ s
  unfolding serve KeepsAt
  bad_request_unchanged mux_error req refused = elim (Bool-cases (req.method == "OPTIONS")) [
    | inl preflight ↦ ground arith
    | inr other ↦ elim (Option-cases (endpoint_of s.dev_mode req.method req.path)) [
      | inl unrouted ↦ ground arith
      | inr (e, routed) ↦ ground (arith, call_endpoint-KeepsAt mux_error e req.body)
    ]
  ]
