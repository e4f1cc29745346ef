-- ===== src/Terminal/Commands.antt =====
-- The menu of the terminal program: tuti-tui/internal/tui/commandspec.go.
use tuti_server.Base.{String, Bool, true, false, List, [], ◌∷◌}

pub data ParamKind : Type 0 where
  param_text param_file param_choice : ParamKind

pub record ParamSpec : Type 0 where
  pub name : String
  pub kind : ParamKind
  pub placeholder : String
  pub default : String
  pub choices : List String
  pub optional : Bool

-- The menu shows `name` and `desc`, its methods `Title` and `Description`.
pub record CommandSpec : Type 0 where
  pub id : String
  pub name : String
  pub desc : String
  pub params : List ParamSpec

param : String → ParamKind → String → String → List String → Bool → ParamSpec
param name kind placeholder default choices optional = record {
  name = name;
  kind = kind;
  placeholder = placeholder;
  default = default;
  choices = choices;
  optional = optional;
}

command : String → String → String → List ParamSpec → CommandSpec
command id name desc params = record { id = id; name = name; desc = desc; params = params }

unfoldable pub command_catalog : List CommandSpec
unfolding param command
command_catalog =
    command "health" "Health Check" "GET /healthz" []
    ∷ command "init" "Init Snap & Solve" "Start a new Snap & Solve session" []
    ∷ command "snap" "Submit Snap" "Upload a photo for the current snap session"
        (param "Photo" param_file "path to a photo — Ctrl+F to browse" "" [] false ∷ [])
    ∷ command "respond" "Submit Response" "Submit the student's chosen action"
        (param "Response" param_choice "" "" ("check_work" ∷ "solve" ∷ "explain" ∷ []) false ∷ [])
    ∷ command "upload" "Upload Screenshot" "Upload a screenshot (standalone)"
        (param "Photo" param_file "path to a screenshot — Ctrl+F to browse" "" [] false ∷ [])
    ∷ command "captures" "List Captures" "List uploaded captures, most recent first" []
    ∷ command "session" "Create Session" "Open a new solve session" []
    ∷ command "analyze" "Analyze Assets" "Analyze captures attached to a session"
        (param "Asset IDs" param_text "comma-separated, defaults to last capture" "" [] true ∷ [])
    ∷ command "lesson" "Get Lesson" "Fetch lesson content" (
        param "Lesson ID" param_text "e.g. linear_equations" "" [] false
        ∷ param "Language" param_text "en" "en" [] true
        ∷ [])
    ∷ command "devprompt" "Dev Prompt"
        "Send a raw prompt to the LLM (requires DEV_MODE=true on server)"
        (param "Prompt" param_text "enter your prompt" "" [] false ∷ [])
    ∷ command "clear" "Clear Log" "Clear the results log" []
    ∷ []

-- `commandSpec{}`
abbrev pub no_command : CommandSpec
no_command = record { id = ""; name = ""; desc = ""; params = [] }
