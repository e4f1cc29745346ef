-- ===== src/Terminal/Exec.antt =====
-- What the closures of tuti-tui/internal/tui/commands.go do when they run: a call of the client, and the
-- message that it leaves. A nil pointer that is dereferenced is `none`.
pub mod Kinds
use Prim.Native.String as S
use tuti_server.Base.{
  String, List, [], ◌∷◌, ◌++◌, Option, none, some, length, Bytes, bytes_of, itoa, is_empty,
  if◌then◌else◌,
}
use tuti_server.Errors.{Error, Result, ok, err, M}
use tuti_server.Client.{Client, Codec, Net, HistoryEntry, replay}
use tuti_server.Client.Json.{Json, null}
use tuti_server.Client.Rpc as Rpc
use tuti_server.Client.Rpc.{Responses}
use tuti_server.Client.Wire.{
  Capture, SolveSession, NextStep, AnalyzeAssetsResult, InitializeSnapAndSolveResponse,
  LessonContent,
}
use tuti_server.Terminal.Widgets.{
  Body, init_body, next_step_body, capture_body, captures_body, session_body, analysis_body,
  lesson_body, text_body, json_body,
}
use tuti_server.Terminal.Run.{
  ResultMsg, Call, check_health, replay_entry, call_health, call_init, call_snap, call_respond,
  call_upload, call_captures, call_session, call_analyze, call_lesson, call_dev_prompt, Reply,
  health_result, result_reply, shows, failed, titled, summarize_next_step, summarize_analysis,
  replay_title,
}

error_of {ℓ} : {A : Type ℓ} → Result A → Option Error
error_of (ok _) = none
error_of (err e) = some e

-- `if err != nil { return resultMsg{title: title, err: err} }`, and what follows
or_failed : {A : Type 0} → String → Result A → (A → Option ResultMsg) → Option Reply
or_failed title (err e) f = some (result_reply (failed title e))
or_failed title (ok a) f = elim (f a) [ none ↦ none | some msg ↦ some (result_reply msg) ]

step_message : String → Option NextStep → Option ResultMsg
step_message title next = elim (summarize_next_step next) [
  | none ↦ none
  | some summary ↦ some (shows title (some (next_step_body next)) summary)
]

init_message : InitializeSnapAndSolveResponse → Option ResultMsg
init_message r = elim (summarize_next_step r.next_step) [
  | none ↦ none
  | some summary ↦
      some
        (record (shows "init" (some (init_body r.session_id r.next_step))
          (bytes_of "session: " ++ bytes_of r.session_id ++ bytes_of " — " ++ summary)) {
            set_snap_session_id = r.session_id;
          })
]

capture_id : Option Capture → String
capture_id none = ""
capture_id (some c) = c.id

upload_message : Option Capture → ResultMsg
unfolding capture_id
upload_message c =
    record (shows "upload" (some (capture_body c))
      (bytes_of "capture id: " ++ bytes_of (capture_id c))) { set_last_capture_id = capture_id c }

solve_session_id : Option SolveSession → String
solve_session_id none = ""
solve_session_id (some s) = s.session_id

session_message : Option SolveSession → ResultMsg
unfolding solve_session_id
session_message s =
    record (shows "session" (some (session_body s))
      (bytes_of "session id: " ++ bytes_of (solve_session_id s))) {
        set_solve_session_id = solve_session_id s;
      }

lesson_title : Option LessonContent → Bytes
lesson_title none = []
lesson_title (some c) = bytes_of c.title

-- The body that a replay shows: JSON that can be read, or the bytes as they are. `null` is read as nil.
read_body : Result Json → Bytes → Option Body
read_body (ok null) resp = none
read_body (ok v) resp = some (json_body v)
read_body (err _) resp = some (text_body resp)

module _ (codec : Codec) (responses : Responses) {W : Type 0} (net : Net W) where
  replay_message : HistoryEntry → Bytes → ResultMsg
  unfolding read_body
  replay_message e resp =
      shows (replay_title e)
        (if is_empty resp then none else read_body (codec.json.unmarshal resp) resp)
        (bytes_of "replayed " ++ bytes_of e.rpc)

  -- `f` on the result of a method of the client
  then_message :
      {A : Type 0} → M (Client W) A → (Result A → Option Reply) → Client W → Option Reply × Client W
  then_message call f c = let (r, c') = call c in (f r, c')

  unfoldable pub exec : Call → Client W → Option Reply × Client W
  unfolding error_of or_failed step_message init_message upload_message session_message lesson_title
      replay_message then_message
  exec check_health =
      then_message (Rpc.health codec responses net) (λ r. some (health_result (error_of r)))
  exec (replay_entry e) =
      then_message (replay codec net e)
        (λ r. or_failed (replay_title e) r (λ resp. some (replay_message e resp)))
  exec call_health = then_message (Rpc.health codec responses net) (λ r.
      some
        (result_reply (record (titled "health") { error = error_of r; summary = bytes_of "ok" })))
  exec call_init =
      then_message (Rpc.initialize_snap_and_solve codec responses net)
        (λ r. or_failed "init" r init_message)
  exec (call_snap session_id path) =
      then_message (Rpc.submit_snap codec responses net session_id path)
        (λ r. or_failed "snap" r (step_message "snap"))
  exec (call_respond session_id response_id) =
      then_message (Rpc.submit_snap_response codec responses net session_id response_id)
        (λ r. or_failed "respond" r (step_message "respond"))
  exec (call_upload path) =
      then_message (Rpc.upload_screenshot codec responses net path)
        (λ r. or_failed "upload" r (λ c. some (upload_message c)))
  exec call_captures = then_message (Rpc.list_captures codec responses net) (λ r.
      or_failed "captures" r (λ cs. some (
        shows "captures" (some (captures_body cs))
          (bytes_of (itoa (length cs)) ++ bytes_of " capture(s)"))))
  exec call_session =
      then_message (Rpc.create_session codec responses net)
        (λ r. or_failed "session" r (λ s. some (session_message s)))
  exec (call_analyze session_id ids) =
      then_message (Rpc.analyze_assets codec responses net session_id ids) (λ r.
        or_failed "analyze" r
          (λ a. some (shows "analyze" (some (analysis_body a)) (summarize_analysis a))))
  exec (call_lesson lesson_id language) =
      then_message (Rpc.get_lesson_content codec responses net lesson_id language) (λ r.
        or_failed "lesson" r (λ c. some (shows "lesson" (some (lesson_body c)) (lesson_title c))))
  exec (call_dev_prompt prompt) = then_message (Rpc.dev_prompt codec responses net prompt) (λ r.
      or_failed "devprompt" r (λ reply. some (
        shows "devprompt" (some (text_body reply))
          (bytes_of (itoa (length reply)) ++ bytes_of " chars"))))
