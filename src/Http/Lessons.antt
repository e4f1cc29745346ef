-- ===== src/Http/Lessons.antt =====
-- internal/httpapi/lessons.go and dev.go
use tuti_server.Base.{[], ◌==◌, if◌then◌else◌}
use tuti_server.Errors.{Result, wrapf}
use tuti_server.Catalog.Lessons.{get_lesson}
use tuti_server.Analysis.Analyzer.{raw_prompt}
use tuti_server.Http.{
  Bytes, Response, H, ◌>>=◌, ◌>>◌, or_stop, attempt, refuse_if, respond, bad_request, read_proto,
  read_all, write_proto, write_json_error, said, shown, lesson, replied, default_max_body_bytes,
}
use tuti_server.Http.Server.{Server, Outside, Env, on_logs}

module _ {S D : Type 0} (o : Outside S D) (env : Env) where
  -- `handleGetLessonContent`
  unfoldable pub handle_get_lesson_content : Result Bytes → H (Server S D) Response
  unfolding write_json_error
  handle_get_lesson_content body = do
    req ←
        or_stop
          (read_proto o.unmarshal_lesson (record { lesson_id = ""; language = "" })
            default_max_body_bytes body)
          bad_request
    refuse_if (req.lesson_id == "") (write_json_error 400 (said "lessonId is required"))
    let lang = if req.language == "" then "en" else req.language
    respond (write_proto o.marshal 200 (lesson (get_lesson req.lesson_id lang)))

  -- `handleDevPrompt`; its reply is encoded by encoding/json and not by the proto's code
  unfoldable pub handle_dev_prompt : Result Bytes → H (Server S D) Response
  unfolding write_json_error
  handle_dev_prompt body = do
    bytes ←
        or_stop (read_all default_max_body_bytes body)
          (λ _. write_json_error 400 (said "request body too large or unreadable"))
    prompt ←
        or_stop (o.unmarshal_prompt bytes) (λ _. write_json_error 400 (said "invalid JSON body"))
    refuse_if (prompt == "") (write_json_error 400 (said "prompt is required"))
    reply ←
        attempt (on_logs (raw_prompt env.backend o.settings o.prompts prompt))
          (λ e. write_json_error 502 (shown (wrapf "provider error: %w" [] e)))
    respond (record { status = 200; body = replied reply })
