-- ===== src/Client/Rpc.antt =====
-- One method for each call that the client knows: tuti-tui/internal/api/client.go.
use Prim.Native.Char.{Char, code}
use Prim.Native.String as S
use tuti_server.Base.{
  ℕ, String, Bool, List, [], ◌∷◌, Option, none, some, eqb, ◌==◌, if◌then◌else◌, Bytes, bytes_of,
}
use tuti_server.Errors.{wrapf, str, bytes, Result, ok, map_err, M, ◌>>=◌, lift, return}
use tuti_server.Client.{Client, Codec, Net, perform, short_timeout}
use tuti_server.Client.Wire.{
  Capture, SolveSession, NextStep, AnalyzeAssetsResult, InitializeSnapAndSolveResponse,
  LessonContent, RequestBody, upload_screenshot_request, analyze_assets_request,
  submit_snap_request, submit_snap_response_request, get_lesson_content_request, dev_prompt_request,
}

-- `encoding/json` on the responses. A response type with one field is the value of its field.
pub record Responses : Type 0 where
  pub upload_screenshot : Bytes → Result (Option Capture)
  pub list_captures : Bytes → Result (List (Option Capture))
  pub create_session : Bytes → Result (Option SolveSession)
  pub analyze_assets : Bytes → Result AnalyzeAssetsResult
  pub initialize_snap_and_solve : Bytes → Result InitializeSnapAndSolveResponse
  pub next_step : Bytes → Result (Option NextStep)
  pub dev_prompt : Bytes → Result Bytes
  pub lesson_content : Bytes → Result (Option LessonContent)

slash : Char → Bool
slash c = eqb (code c) 47

-- The last part of a path that is not empty, between slashes: `best` has been passed, `part` is being read.
last_part : String → String → String → String
unfolding slash
last_part best part S.[] = if part == "" then best else part
last_part best part (S.◌∷◌ c s) =
    let next = last_part (if part == "" then best else part) "" s in
    let more = last_part best (S.◌++◌ part (S.◌∷◌ c "")) s in if slash c then next else more

-- `filepath.Base`, where the separator is a slash
unfoldable pub base_name : String → String
unfolding last_part
base_name path =
    let name = last_part "" "" path in if path == "" then "." else if name == "" then "/" else name

module _ (codec : Codec) (responses : Responses) {W : Type 0} (net : Net W) where
  encoded : String → Option RequestBody → Result Bytes
  encoded rpc none = ok (bytes_of "{}")
  encoded rpc (some req) =
      map_err (wrapf "%s: encoding request: %w" (str rpc ∷ [])) (codec.marshal req)

  decoded {ℓ} : {A : Type ℓ} → String → (Bytes → Result A) → Bytes → Result A
  decoded rpc decode body =
      map_err (wrapf "%s: decoding response: %w (body: %s)" (str rpc ∷ bytes body ∷ []))
        (decode body)

  -- `call`, which is never given a nil response. The timeout `none` is Go's zero, no deadline.
  unfoldable pub call :
      {A : Type 0} → String → Option RequestBody → (Bytes → Result A) → Option ℕ → M (Client W) A
  unfolding encoded decoded
  call rpc req decode timeout = do
    body ← lift (encoded rpc req)
    resp_body ← perform codec net "POST" rpc (S.◌++◌ "/v1/" rpc) (some body) timeout
    lift (decoded rpc decode resp_body)

  read_file : String → M (Client W) Bytes
  read_file path c = (net.read_file path c.world, c)

  unfoldable pub health : M (Client W) (Unit {0})
  health = do
    body ← perform codec net "GET" "Health" "/healthz" none (some short_timeout)
    return tt

  unfoldable pub upload_screenshot : String → M (Client W) (Option Capture)
  unfolding read_file
  upload_screenshot path = do
    data_bytes ← read_file path
    call "UploadScreenshot" (some (upload_screenshot_request data_bytes (base_name path)))
        responses.upload_screenshot (some short_timeout)

  unfoldable pub list_captures : M (Client W) (List (Option Capture))
  list_captures = call "ListCaptures" none responses.list_captures (some short_timeout)

  unfoldable pub create_session : M (Client W) (Option SolveSession)
  create_session = call "CreateSession" none responses.create_session (some short_timeout)

  unfoldable pub analyze_assets : String → List String → M (Client W) AnalyzeAssetsResult
  analyze_assets session_id asset_ids =
      call "AnalyzeAssets" (some (analyze_assets_request session_id asset_ids))
        responses.analyze_assets none

  unfoldable pub initialize_snap_and_solve : M (Client W) InitializeSnapAndSolveResponse
  initialize_snap_and_solve =
      call "InitializeSnapAndSolve" none responses.initialize_snap_and_solve (some short_timeout)

  unfoldable pub submit_snap : String → String → M (Client W) (Option NextStep)
  unfolding read_file
  submit_snap session_id path = do
    data_bytes ← read_file path
    call "SubmitSnap" (some (submit_snap_request session_id data_bytes (base_name path)))
        responses.next_step (some short_timeout)

  unfoldable pub submit_snap_response : String → String → M (Client W) (Option NextStep)
  submit_snap_response session_id response_id =
      call "SubmitSnapResponse" (some (submit_snap_response_request session_id response_id))
        responses.next_step none

  unfoldable pub dev_prompt : String → M (Client W) Bytes
  dev_prompt prompt = do
    body ← lift (
        map_err (wrapf "DevPrompt: encoding request: %w" [])
          (codec.marshal (dev_prompt_request prompt)))
    resp_body ← perform codec net "POST" "DevPrompt" "/dev/Prompt" (some body) none
    lift (map_err (wrapf "DevPrompt: decoding response: %w" []) (responses.dev_prompt resp_body))

  unfoldable pub get_lesson_content : String → String → M (Client W) (Option LessonContent)
  get_lesson_content lesson_id language =
      call "GetLessonContent" (some (get_lesson_content_request lesson_id language))
        responses.lesson_content (some short_timeout)
