-- ===== src/Terminal/Model.antt =====
-- The state of the terminal program: tuti-tui/internal/tui/model.go. What would be a panic in Go, an index
-- out of range or a division by zero, is `none`. The client that the model points to is shared with the
-- commands that run; it stands beside the model, not in it.
use tuti_server.Base.{
  ℕ, zero, suc, String, Bool, true, false, List, [], ◌∷◌, map, Option, none, some, get_elem?,
  if◌then◌else◌, Bytes, bytes_of,
}
use tuti_server.Terminal.Commands.{
  ParamKind, param_file, param_choice, ParamSpec, CommandSpec, command_catalog, no_command,
}
use tuti_server.Terminal.Widgets.{Widgets}

pub data HealthState : Type 0 where
  health_unknown health_ok health_down : HealthState

pub data Focus : Type 0 where
  focus_menu focus_form focus_picker focus_history : Focus

-- `i == j` of two kinds, for the one kind that the program compares with.
abbrev pub is_choice : ParamKind → Bool
is_choice param_choice = true
is_choice _ = false

abbrev pub is_file : ParamKind → Bool
is_file param_file = true
is_file _ = false

-- A field with its input, which a choice leaves at its zero value.
pub record FormField (ui : Widgets) : Type 0 where
  pub spec : ParamSpec
  pub input : ui.Input
  pub choice_idx : ℕ

pub record Model (ui : Widgets) : Type 0 where
  pub menu : ui.Menu
  pub fields : List (FormField ui)
  pub field_i : ℕ
  pub picker : ui.Picker
  pub picker_target : ℕ
  pub history_idx : ℕ
  pub history_viewport : ui.Viewport
  pub viewport : ui.Viewport
  pub spinner : ui.Spinner
  pub focus : Focus
  pub rendered : List Bytes
  pub busy : Bool
  pub snap_session_id : String
  pub solve_session_id : String
  pub last_capture_id : String
  pub health : HealthState
  pub status_msg : Bytes
  pub width : ℕ
  pub height : ℕ
  pub ready : Bool
  pub quitting : Bool

-- `xs[i] = f(xs[i])` for an index in range
abbrev pub update_at {ℓ} : {A : Type ℓ} → ℕ → (A → A) → List A → List A
update_at i f [] = []
update_at zero f (x ∷ xs) = f x ∷ xs
update_at (suc i) f (x ∷ xs) = x ∷ update_at i f xs

-- `if c, ok := item.(commandSpec); ok { return c }`, and the zero value otherwise
abbrev pub or_no_command : Option CommandSpec → CommandSpec
or_no_command none = no_command
or_no_command (some c) = c

module _ (ui : Widgets) where
  unfoldable pub new_form_field : ParamSpec → FormField ui
  new_form_field spec = record {
    spec = spec;
    input =
        if is_choice spec.kind
        then ui.input_zero
        else ui.input_new spec.placeholder spec.default 2000;
    choice_idx = 0;
  }

  -- `Value`
  unfoldable pub value : FormField ui → Option String
  value f = elim (f.spec.kind) [
    | param_choice ↦ elim (f.spec.choices) [
      | [] ↦ some ""
      | c ∷ cs ↦ get_elem? (c ∷ cs) f.choice_idx
    ]
    | _ ↦ some (ui.input_value f.input)
  ]

  -- `f.input.Focus()`, unless the field is a choice
  unfoldable pub focus_input : FormField ui → FormField ui
  focus_input f = if is_choice f.spec.kind then f else record f { input = ui.input_focus f.input }

  unfoldable pub fields_for : CommandSpec → List (FormField ui)
  fields_for c = update_at 0 focus_input (map new_form_field c.params)

  unfoldable pub selected_command : Model ui → CommandSpec
  selected_command m = or_no_command (ui.menu_selected_item m.menu)

  -- `commandCatalog[0]`
  first_command : List CommandSpec → CommandSpec
  first_command [] = no_command
  first_command (c ∷ _) = c

  -- `New`, but for the client
  unfoldable pub new : Model ui
  unfolding first_command
  new = record {
    menu = ui.menu_new command_catalog;
    fields = fields_for (first_command command_catalog);
    field_i = 0;
    picker = ui.picker_new (".png" ∷ ".jpg" ∷ ".jpeg" ∷ ".gif" ∷ ".webp" ∷ ".bmp" ∷ ".heic" ∷ []);
    picker_target = 0;
    history_idx = 0;
    history_viewport = ui.viewport_zero;
    viewport = ui.viewport_zero;
    spinner = ui.spinner_new;
    focus = focus_menu;
    rendered = [];
    busy = false;
    snap_session_id = "";
    solve_session_id = "";
    last_capture_id = "";
    health = health_unknown;
    status_msg = bytes_of "checking server...";
    width = 0;
    height = 0;
    ready = false;
    quitting = false;
  }
