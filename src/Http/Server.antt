-- ===== src/Http/Server.antt =====
-- internal/httpapi/server.go: the state behind the handlers, and what they take from outside.
use Prim.Native.Char.{Char}
use tuti_server.Base.{ℕ, String, Bool}
use tuti_server.Errors.{Result, M}
use tuti_server.Dict.{Dict}
use tuti_server.Os.{Os}
use tuti_server.Session.{Store, Codec}
use tuti_server.Session.Snap.{SnapSession, SnapStore}
use tuti_server.Session.Solve.{SolveSession, SolveStore}
use tuti_server.Storage.{LocalFs}
use tuti_server.Analysis.Draft.{ExtractOutput, EvaluateOutput}
use tuti_server.Analysis.Provider.{Provider}
use tuti_server.Analysis.Analyzer.{Settings, Prompts, Logs}
use tuti_server.Http.{
  Bytes, Body, SubmitSnapRequest, SubmitSnapResponseRequest, UploadScreenshotRequest,
  AnalyzeAssetsRequest, GetLessonContentRequest,
}

-- `Server`: the fields and the state that they lead to. The two session stores share one durable store.
pub record Server (S D : Type 0) : Type 0 where
  pub captures : LocalFs D
  pub session_store : S
  pub snap_sessions : Dict SnapSession
  pub solve_sessions : Dict SolveSession
  pub logs : Logs
  pub max_upload_bytes : ℕ
  pub dev_mode : Bool

-- The code below the handlers that is not theirs: the stores' interfaces, the codecs, and the settings.
pub record Outside (S D : Type 0) : Type 0 where
  pub session_api : Store S
  pub snap_codec : Codec SnapSession
  pub solve_codec : Codec SolveSession
  pub os : Os D
  pub settings : Settings
  pub prompts : Prompts
  pub unmarshal_extract : Bytes → Result ExtractOutput
  pub unmarshal_evaluate : Bytes → Result EvaluateOutput
  pub detect : Bytes → String
  pub unicode_lower : Char → Char
  pub marshal : Body → Result Bytes
  pub unmarshal_empty : Bytes → Result (Unit {0})
  pub unmarshal_submit_snap : Bytes → Result SubmitSnapRequest
  pub unmarshal_response : Bytes → Result SubmitSnapResponseRequest
  pub unmarshal_upload : Bytes → Result UploadScreenshotRequest
  pub unmarshal_analyze : Bytes → Result AnalyzeAssetsRequest
  pub unmarshal_lesson : Bytes → Result GetLessonContentRequest
  pub unmarshal_prompt : Bytes → Result String

-- What one call meets: random bytes, the time, and the model's backend.
pub record Env : Type 0 where
  pub rand : Result Bytes
  pub now : ℕ
  pub backend : Provider

module _ {S D : Type 0} where
  abbrev pub on_captures : {A : Type 0} → M (LocalFs D) A → M (Server S D) A
  on_captures m s = let (r, c) = m s.captures in (r, record s { captures = c })

  abbrev pub snap_store : Server S D → SnapStore S
  snap_store s = record { store = s.session_store; sessions = s.snap_sessions }

  abbrev pub on_snap : {A : Type 0} → M (SnapStore S) A → M (Server S D) A
  on_snap m s =
      let (r, t) = m (snap_store s) in
      (r, record s { session_store = t.store; snap_sessions = t.sessions })

  abbrev pub solve_store : Server S D → SolveStore S
  solve_store s = record { store = s.session_store; sessions = s.solve_sessions }

  abbrev pub on_solve : {A : Type 0} → M (SolveStore S) A → M (Server S D) A
  on_solve m s =
      let (r, t) = m (solve_store s) in
      (r, record s { session_store = t.store; solve_sessions = t.sessions })

  abbrev pub on_logs : {A : Type 0} → M Logs A → M (Server S D) A
  on_logs m s = let (r, l) = m s.logs in (r, record s { logs = l })
