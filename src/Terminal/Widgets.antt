-- ===== src/Terminal/Widgets.antt =====
-- What the terminal program takes from bubbletea, bubbles and lipgloss, and from the printing of Go's
-- library: types of states with their operations, which say nothing of how they work.
use tuti_server.Base.{ℕ, String, Bool, List, Option, Bytes}
use tuti_server.Errors.{Error, Result}
use tuti_server.Client.Json.{Json}
use tuti_server.Client.Wire.{Capture, SolveSession, NextStep, AnalyzeAssetsResult, LessonContent}
use tuti_server.Terminal.Commands.{CommandSpec}

-- `Key` is a `tea.KeyMsg`, `Event` any message that only a widget reads, and `Task` a `tea.Cmd` that a
-- widget returns, which may be nil. Sizes are natural numbers where the program makes them so.
pub record Widgets : Type 1 where
  pub Key : Type 0
  pub Event : Type 0
  pub Task : Type 0
  pub Menu : Type 0
  pub Input : Type 0
  pub Picker : Type 0
  pub Viewport : Type 0
  pub Spinner : Type 0
  pub key_text : Key → String
  pub menu_new : List CommandSpec → Menu
  pub menu_selected_item : Menu → Option CommandSpec
  pub menu_update : Key → Menu → Menu × Task
  pub menu_set_size : ℕ → ℕ → Menu → Menu
  pub menu_view : Menu → Bytes
  pub input_zero : Input
  pub input_new : String → String → ℕ → Input
  pub input_value : Input → String
  pub input_set_value : String → Input → Input
  pub input_focus : Input → Input
  pub input_blur : Input → Input
  pub input_update : Key → Input → Input × Task
  pub input_set_width : ℕ → Input → Input
  pub input_view : Input → Bytes
  pub picker_new : List String → Picker
  pub picker_init : Picker → Task
  pub picker_key : Key → Picker → Picker × Task
  pub picker_event : Event → Picker → Picker × Task
  pub picker_did_select_file : Key → Picker → Option String
  pub picker_set_height : ℕ → Picker → Picker
  pub picker_directory : Picker → String
  pub picker_view : Picker → Bytes
  pub viewport_zero : Viewport
  pub viewport_new : ℕ → ℕ → Viewport
  pub viewport_resize : ℕ → ℕ → Viewport → Viewport
  pub viewport_set_content : Bytes → Viewport → Viewport
  pub viewport_goto_top : Viewport → Viewport
  pub viewport_goto_bottom : Viewport → Viewport
  pub viewport_set_y_offset : ℕ → Viewport → Viewport
  pub viewport_y_offset : Viewport → ℕ
  pub viewport_height : Viewport → ℕ
  pub viewport_at_top : Viewport → Bool
  pub viewport_at_bottom : Viewport → Bool
  pub viewport_update : Key → Viewport → Viewport × Task
  pub viewport_view : Viewport → Bytes
  pub spinner_new : Spinner
  pub spinner_update : Event → Spinner → Spinner × Task
  pub spinner_tick : Spinner → Task
  pub spinner_view : Spinner → Bytes

-- The styles of view.go.
pub data Style : Type 0 where
  title_style subtle_style summary_style json_style error_style : Style
  health_ok_style health_down_style health_unk_style status_bar_style : Style
  field_label_style field_label_focus_style choice_style choice_selected_style : Style
  file_hint_style action_button_style sending_style : Style
  scroll_active_style scroll_dim_style help_style : Style
  -- `boxStyle` and `boxFocusStyle` with a width
  box_style box_focus_style : ℕ → Style

-- What a command shows, the `any` of `resultMsg.body`. A nil pointer is a value of this type.
pub data Body : Type 0 where
  init_body : String → Option NextStep → Body
  next_step_body : Option NextStep → Body
  capture_body : Option Capture → Body
  captures_body : List (Option Capture) → Body
  session_body : Option SolveSession → Body
  analysis_body : AnalyzeAssetsResult → Body
  lesson_body : Option LessonContent → Body
  text_body : Bytes → Body
  json_body : Json → Body

-- `Error()`, `lipgloss.Style.Render`, `lipgloss.JoinHorizontal` at the top, `json.Marshal` of a body, and
-- the printed forms of a time and of a duration.
pub record Texts : Type 0 where
  pub message : Error → Bytes
  pub render : Style → Bytes → Bytes
  pub join_horizontal : List Bytes → Bytes
  pub marshal_body : Body → Result Bytes
  pub format_time : ℕ → Bytes
  pub format_duration : ℕ → Bytes
