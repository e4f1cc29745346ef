-- ===== src/Proto.antt =====
-- The messages of proto/tuti_service.proto, as internal/genproto/tutiv1/tuti_service.pb.go has them. A
-- `double` is an integer number of ten-thousandths, the precision to which the catalog rounds.
use tuti_server.Base.{ℕ, ℤ, String, Bool, List, [], ◌∷◌, Option, none, some}

pub data DifficultyLevel : Type 0 where
  unspecified easy medium hard : DifficultyLevel

pub record Point2D : Type 0 where
  pub x : ℤ
  pub y : ℤ

pub record Series2D : Type 0 where
  pub label : String
  pub color : String
  pub points : List Point2D
  pub dashed : Bool

pub record AxisConfig : Type 0 where
  pub label : String
  pub min : ℤ
  pub max : ℤ

pub record Graph2DBlock : Type 0 where
  pub title : String
  pub series : List Series2D
  pub x_axis : AxisConfig
  pub y_axis : AxisConfig

pub record ViewBox2D : Type 0 where
  pub x : ℤ
  pub y : ℤ
  pub width : ℤ
  pub height : ℤ

-- The elements that the catalog draws: `GeoSegment`, `GeoAngle` and `GeoLabel`.
pub data GeometryElement : Type 0 where
  geo_segment : (x1 y1 x2 y2 : ℤ) (color : String) → GeometryElement
  geo_angle : (cx cy radius start_degrees end_degrees : ℤ) (color : String) → GeometryElement
  geo_label : (x y : ℤ) (text color : String) → GeometryElement

pub record GeometryBlock : Type 0 where
  pub title : String
  pub elements : List GeometryElement
  pub view_box : ViewBox2D

-- A block, and the list of blocks that a step holds.
mutual
  pub data ContentBlock : Type 0 where
    text : String → ContentBlock
    math : String → ContentBlock
    graph_2d : Graph2DBlock → ContentBlock
    geometry : GeometryBlock → ContentBlock
    step : (step_number : ℤ) (label : String) (content : Blocks) → ContentBlock
    hint : String → ContentBlock

  pub data Blocks : Type 0 where
    nil : Blocks
    cons : ContentBlock → Blocks → Blocks

abbrev pub blocks : List ContentBlock → Blocks
blocks [] = nil
blocks (b ∷ bs) = cons b (blocks bs)

pub record Problem : Type 0 where
  pub id : String
  pub title : String
  pub topic : String
  pub difficulty : DifficultyLevel
  pub statement : List ContentBlock
  pub hints : List String
  pub solution : List ContentBlock

pub record Mistake : Type 0 where
  pub id : String
  pub description : String
  pub step_reference : String

pub record LessonReference : Type 0 where
  pub lesson_id : String
  pub title : String
  pub description : String
  pub icon_name : String

-- `GetTopic`, of a message that may be nil
abbrev pub get_topic : Option Problem → String
get_topic none = ""
get_topic (some problem) = problem.topic

pub record EvaluatedProblem : Type 0 where
  pub problem : Option Problem
  pub mistakes : List Mistake
  pub similar_problems : List Problem

pub record DisplayAnalysisStep : Type 0 where
  pub lessons_to_review : List LessonReference
  pub problems_captured : List EvaluatedProblem

pub record SnapOption : Type 0 where
  pub id : String
  pub label : String
  pub description : String
  pub icon_name : String

pub data NextStep : Type 0 where
  capture_snap : NextStep
  capture_snap_response : List SnapOption → NextStep
  display_analysis : DisplayAnalysisStep → NextStep

pub record TopicRecommendation : Type 0 where
  pub id : String
  pub title : String
  pub description : String
  pub lesson_id : String
  pub icon_name : String

-- The `result` of AnalyzeAssetsResponse: `BlankProblemsResult` or `ProblemsFoundResult`.
pub data AnalyzeAssetsResult : Type 0 where
  blank :
      (topics : List TopicRecommendation) (similar_problems : List Problem) → AnalyzeAssetsResult
  problems_found :
      (detected_problems : List (Option Problem)) (similar_problems : List Problem)
      → AnalyzeAssetsResult

pub record Capture : Type 0 where
  pub id : String
  pub name : String
  pub bytes : List ℕ
  pub uploaded_at_ms : ℕ

pub record LessonSection : Type 0 where
  pub heading : String
  pub content : List ContentBlock

pub record LessonContent : Type 0 where
  pub id : String
  pub title : String
  pub topic : String
  pub icon_name : String
  pub language : String
  pub context : List ContentBlock
  pub sections : List LessonSection
  pub worked_example : LessonSection
