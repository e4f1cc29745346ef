-- ===== src/Client/Wire.antt =====
-- The messages of the server as the client reads and writes them: tuti-tui/internal/api/types.go. A
-- pointer is an `Option`, also in a slice; a tag of `encoding/json` is part of the codec, not of the type.
use tuti_server.Base.{ℤ, String, Bool, List, Option, Bytes}

pub record Capture : Type 0 where
  pub id : String
  pub name : String
  pub data_bytes : Bytes
  pub uploaded_at_ms : String
  pub url : String

pub record SolveSession : Type 0 where
  pub session_id : String
  pub asset_ids : List String
  pub created_at_ms : String

pub record SnapOption : Type 0 where
  pub id : String
  pub label : String
  pub description : String
  pub icon_name : String

pub record LessonReference : Type 0 where
  pub lesson_id : String
  pub title : String
  pub description : String
  pub icon_name : String

pub record QuestionOption : Type 0 where
  pub id : String
  pub text : String
  pub is_correct : Bool

pub record SocraticQuestion : Type 0 where
  pub id : String
  pub question : String
  pub options : List (Option QuestionOption)
  pub explanation : String

pub record Mistake : Type 0 where
  pub id : String
  pub description : String
  pub step_reference : String
  pub socratic_questions : List (Option SocraticQuestion)

pub record TopicRecommendation : Type 0 where
  pub id : String
  pub title : String
  pub description : String
  pub lesson_id : String
  pub icon_name : String

pub record TextBlock : Type 0 where
  pub text : String
  pub bold : Bool
  pub italic : Bool

pub record MathBlock : Type 0 where
  pub expression : String
  pub inline : Bool

pub record TitledBlock : Type 0 where
  pub title : String

pub record HintBlock : Type 0 where
  pub hint : String

-- The fields of `ContentBlock` in their order; a `StepBlock` holds blocks again.
mutual
  pub data ContentBlock : Type 0 where
    content_block :
        Option TextBlock
        → Option MathBlock
        → Option TitledBlock
        → Option TitledBlock
        → Option TitledBlock
        → StepBlock
        → Option HintBlock
        → ContentBlock

  -- `*StepBlock`: its number, label and content.
  pub data StepBlock : Type 0 where
    no_step : StepBlock
    step_block : ℤ → String → ContentBlocks → StepBlock

  -- `[]*ContentBlock`
  pub data ContentBlocks : Type 0 where
    no_blocks : ContentBlocks
    null_block : ContentBlocks → ContentBlocks
    block : ContentBlock → ContentBlocks → ContentBlocks

pub record Problem : Type 0 where
  pub id : String
  pub title : String
  pub topic : String
  pub difficulty : String
  pub statement : ContentBlocks
  pub hints : List String
  pub solution : ContentBlocks

pub record EvaluatedProblem : Type 0 where
  pub problem : Option Problem
  pub mistakes : List (Option Mistake)
  pub similar_problems : List (Option Problem)

pub record LessonSection : Type 0 where
  pub heading : String
  pub content : ContentBlocks

pub record LessonContent : Type 0 where
  pub id : String
  pub title : String
  pub topic : String
  pub icon_name : String
  pub language : String
  pub context : ContentBlocks
  pub sections : List (Option LessonSection)
  pub worked_example : Option LessonSection

pub record CaptureSnapResponseStep : Type 0 where
  pub options : List (Option SnapOption)

pub record DisplayAnalysisStep : Type 0 where
  pub lessons_to_review : List (Option LessonReference)
  pub problems_captured : List (Option EvaluatedProblem)

-- `CaptureSnapStep` has no fields.
pub record NextStep : Type 0 where
  pub capture_snap : Option (Unit {0})
  pub capture_snap_response : Option CaptureSnapResponseStep
  pub display_analysis : Option DisplayAnalysisStep

pub record BlankProblemsResult : Type 0 where
  pub topics : List (Option TopicRecommendation)
  pub similar_problems : List (Option Problem)

pub record ProblemsFoundResult : Type 0 where
  pub detected_problems : List (Option Problem)
  pub similar_problems : List (Option Problem)

pub record AnalyzeAssetsResult : Type 0 where
  pub blank : Option BlankProblemsResult
  pub problems_found : Option ProblemsFoundResult

pub record InitializeSnapAndSolveResponse : Type 0 where
  pub session_id : String
  pub next_step : Option NextStep

-- The request types, one constructor for each with its fields in their order.
pub data RequestBody : Type 0 where
  upload_screenshot_request : Bytes → String → RequestBody
  analyze_assets_request : String → List String → RequestBody
  submit_snap_request : String → Bytes → String → RequestBody
  submit_snap_response_request : String → String → RequestBody
  get_lesson_content_request : String → String → RequestBody
  dev_prompt_request : String → RequestBody
