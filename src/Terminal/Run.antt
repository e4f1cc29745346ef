-- ===== src/Terminal/Run.antt =====
-- The commands of the terminal program: tuti-tui/internal/tui/commands.go. A `tea.Cmd` that talks to the
-- server is kept as the data that its closure captures (`Call`); `exec` is what the closure does.
pub mod Safe
pub mod User
use Prim.Native.Char.{Char, code}
use Prim.Native.String as S
use tuti_server.Base.{
  ℕ, String, Bool, true, false, List, [], ◌∷◌, ◌++◌, Option, none, some, length, eqb, ◌==◌,
  if◌then◌else◌, Bytes, bytes_of, join, itoa, is_empty, trim_space, contains,
}
use tuti_server.Errors.{Error, errorf, str, Result, ok, err}
use tuti_server.Client as Client
use tuti_server.Client.{Codec, Net, HistoryEntry}
use tuti_server.Client.Json.{Json, null}
use tuti_server.Client.Rpc
use tuti_server.Client.Rpc.{Responses}
use tuti_server.Client.Wire.{
  Capture, SolveSession, SnapOption, NextStep, AnalyzeAssetsResult, InitializeSnapAndSolveResponse,
  LessonContent,
}
use tuti_server.Terminal.Widgets.{
  Widgets, Body, init_body, next_step_body, capture_body, captures_body, session_body,
  analysis_body, lesson_body, text_body, json_body,
}
use tuti_server.Terminal.Model.{FormField, Model, value, selected_command}

pub record ResultMsg : Type 0 where
  pub title : String
  pub error : Option Error
  pub summary : Bytes
  pub body : Option Body
  pub set_snap_session_id : String
  pub set_solve_session_id : String
  pub set_last_capture_id : String

-- What a closure has captured.
pub data Call : Type 0 where
  check_health : Call
  replay_entry : HistoryEntry → Call
  call_health : Call
  call_init : Call
  call_snap : String → String → Call
  call_respond : String → String → Call
  call_upload : String → Call
  call_captures : Call
  call_session : Call
  call_analyze : String → List String → Call
  call_lesson : String → String → Call
  call_dev_prompt : String → Call

-- The message of a call.
pub data Reply : Type 0 where
  health_result : Option Error → Reply
  result_reply : ResultMsg → Reply

-- `resultMsg{title: title}`
unfoldable pub titled : String → ResultMsg
titled title = record {
  title = title;
  error = none;
  summary = [];
  body = none;
  set_snap_session_id = "";
  set_solve_session_id = "";
  set_last_capture_id = "";
}

-- `resultMsg{title: title, err: e}`
unfoldable pub failed : String → Error → ResultMsg
unfolding titled
failed title e = record (titled title) { error = some e }

-- `resultMsg{title: title, body: body, summary: summary}`
unfoldable pub shows : String → Option Body → Bytes → ResultMsg
unfolding titled
shows title body summary = record (titled title) { body = body; summary = summary }

-- The ids of a step's options; a nil option is a nil pointer that is dereferenced, `none`.
unfoldable pub option_ids : List (Option SnapOption) → Option (List Bytes)
option_ids [] = some []
option_ids (none ∷ rest) = none
option_ids (some o ∷ rest) = elim (option_ids rest) [
  | none ↦ none
  | some ids ↦ some (bytes_of o.id ∷ ids)
]

-- `summarizeNextStep`
unfoldable pub summarize_next_step : Option NextStep → Option Bytes
unfolding option_ids
summarize_next_step none = some (bytes_of "(no next step)")
summarize_next_step (some next) = elim (next.capture_snap) [
  | some _ ↦ some (bytes_of "next: capture a snap photo")
  | none ↦ elim (next.capture_snap_response) [
    | some step ↦ elim (option_ids step.options) [
      | none ↦ none
      | some ids ↦ some (bytes_of "next: choose a response — " ++ join (bytes_of ", ") ids)
    ]
    | none ↦ elim (next.display_analysis) [
      | some a ↦ some (
          bytes_of "next: display analysis — "
          ++ bytes_of (itoa (length a.lessons_to_review))
          ++ bytes_of " lesson(s) to review, "
          ++ bytes_of (itoa (length a.problems_captured))
          ++ bytes_of " problem(s) captured")
      | none ↦ some (bytes_of "(empty next step)")
    ]
  ]
]

-- `summarizeAnalysis`, of a result that is never nil here
unfoldable pub summarize_analysis : AnalyzeAssetsResult → Bytes
summarize_analysis r = elim (r.blank) [
  | some b ↦
      bytes_of "blank page — "
      ++ bytes_of (itoa (length b.topics))
      ++ bytes_of " topic(s) suggested"
  | none ↦ elim (r.problems_found) [
    | some p ↦
        bytes_of "problem(s) found — "
        ++ bytes_of (itoa (length p.detected_problems))
        ++ bytes_of " detected"
    | none ↦ bytes_of "(empty result)"
  ]
]

-- `strings.Split(s, ",")`
unfoldable split_commas : String → String → List String
split_commas part S.[] = part ∷ []
split_commas part (S.◌∷◌ c s) =
    let next = part ∷ split_commas "" s in
    let more = split_commas (S.◌++◌ part (S.◌∷◌ c "")) s in if eqb (code c) 44 then next else more

-- The loop of `analyze` over the parts: a part of white space alone is passed over.
unfoldable trimmed : List String → List String
trimmed [] = []
trimmed (id ∷ rest) =
    let ids = trimmed rest in if trim_space id == "" then ids else trim_space id ∷ ids

unfoldable pub asset_ids : String → String → List String
unfolding split_commas trimmed
asset_ids field last_capture_id =
    let raw = trim_space field in
    if raw == ""
    then if last_capture_id == "" then [] else last_capture_id ∷ []
    else trimmed (split_commas "" raw)

-- `replayCmd`, up to its closure
unfoldable pub replay_title : HistoryEntry → String
replay_title e = S.◌++◌ "replay: " e.rpc

-- What `run` returns: a call, or a message at once; `none` where a field's choice is out of range.
pub data Started : Type 0 where
  call : Call → Started
  at_once : ResultMsg → Started

refuse : String → String → Started
unfolding failed
refuse title message = at_once (failed title (errorf message []))

no_snap_session : String → Started
unfolding refuse
no_snap_session title = refuse title "no snap session — run 'Init Snap & Solve' first"

unfoldable run_upload : String → Started
unfolding refuse
run_upload path =
    if path == ""
    then refuse "upload" "Photo is required (Ctrl+F to browse)"
    else call (call_upload path)

unfoldable run_dev_prompt : String → Started
unfolding refuse
run_dev_prompt prompt =
    if prompt == "" then refuse "devprompt" "Prompt is required" else call (call_dev_prompt prompt)

module _ (ui : Widgets) where
  -- `fieldValue`
  unfoldable pub field_value : String → List (FormField ui) → Option String
  field_value name [] = some ""
  field_value name (f ∷ rest) =
      let others = field_value name rest in if f.spec.name == name then value ui f else others

  unfoldable run_snap : Model ui → String → Started
  unfolding refuse no_snap_session
  run_snap m path =
      if path == ""
      then refuse "snap" "Photo is required (Ctrl+F to browse)"
      else if m.snap_session_id == ""
      then no_snap_session "snap"
      else call (call_snap m.snap_session_id path)

  unfoldable run_respond : Model ui → String → Started
  unfolding no_snap_session
  run_respond m response_id =
      if m.snap_session_id == ""
      then no_snap_session "respond"
      else call (call_respond m.snap_session_id response_id)

  unfoldable run_analyze : Model ui → String → Started
  unfolding refuse
  run_analyze m field =
      let ids = asset_ids field m.last_capture_id in
      if is_empty ids
      then refuse "analyze" "Asset IDs is required (or upload something first)"
      else if m.solve_session_id == ""
      then refuse "analyze" "no solve session — run 'Create Session' first"
      else call (call_analyze m.solve_session_id ids)

  with_field : String → Model ui → (String → Started) → Option Started
  with_field name m f = elim (field_value name m.fields) [ none ↦ none | some v ↦ some (f v) ]

  unfoldable run_lesson : Model ui → String → Option Started
  unfolding refuse with_field
  run_lesson m lesson_id =
      if lesson_id == ""
      then some (refuse "lesson" "Lesson ID is required")
      else with_field "Language" m (λ language. call (call_lesson lesson_id language))

  run_get_lesson : Model ui → Option Started
  unfolding run_lesson
  run_get_lesson m = elim (field_value "Lesson ID" m.fields) [
    | none ↦ none
    | some id ↦ run_lesson m id
  ]

  unfoldable run_command : Model ui → String → Option Started
  unfolding with_field run_snap run_respond run_upload run_analyze run_get_lesson run_dev_prompt
      failed
  run_command m id =
      if id == "clear"
      then some (at_once (titled "__clear__"))
      else if id == "health"
      then some (call call_health)
      else if id == "init"
      then some (call call_init)
      else if id == "snap"
      then with_field "Photo" m (run_snap m)
      else if id == "respond"
      then with_field "Response" m (run_respond m)
      else if id == "upload"
      then with_field "Photo" m run_upload
      else if id == "captures"
      then some (call call_captures)
      else if id == "session"
      then some (call call_session)
      else if id == "analyze"
      then with_field "Asset IDs" m (run_analyze m)
      else if id == "lesson"
      then run_get_lesson m
      else if id == "devprompt"
      then with_field "Prompt" m run_dev_prompt
      else some (at_once (failed id (errorf "unknown command %q" (str id ∷ []))))

  unfoldable pub run : Model ui → Option Started
  unfolding run_command
  run m = run_command m (selected_command ui m).id
