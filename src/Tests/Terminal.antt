-- ===== src/Tests/Terminal.antt =====
-- Runs of the terminal program, with widgets that do little.
use tuti_server.Base.{
  ℕ, ◌+◌, ◌≤◌, ◌≡◌, refl, String, true, List, [], none, some, arith, get_elem?, false, ◌∷◌, length,
  take, sub_ℕ, bytes_of, split,
}
use tuti_server.Errors.{ok, err, errorf}
use tuti_server.Client.{HistoryEntry}
use tuti_server.Client.Rpc.{Responses}
use tuti_server.Terminal.Commands.{command_catalog}
use tuti_server.Terminal.Widgets.{Widgets, Texts}
use tuti_server.Terminal.Model.{Model, selected_command, new}
use tuti_server.Terminal.Run.{run}
use tuti_server.Terminal.Panel.{
  column_widths, Selection, history_content, entry_lines, content_loop, summary_line, button_lines,
  truncate_line,
}
use tuti_server.Terminal.Panel.Range.{lines_of, selected_range}
use tuti_server.Terminal.Panel.Layout.{columns_fit}
use tuti_server.Terminal.Update.{Effect, key, run_now}
use tuti_server.Terminal.Update.Quiet.{one_if}
use tuti_server.Terminal.Keys.{update, handle_key, init}
use tuti_server.Terminal.Safe.{IsMenu}
use tuti_server.Terminal.System.{System, boot, Reach, booted, stepped, outside}
use tuti_server.Terminal.System.Flight.{requests, one_request_in_flight}
use tuti_server.Terminal.System.Panics.{update_returns}
use tuti_server.Tests.Client.{codec, net}

-- A key is its text, and the menu the index of its item.
abbrev ui : Widgets
ui = record {
  Key = String;
  Event = ℕ;
  Task = ℕ;
  Menu = ℕ;
  Input = String;
  Picker = ℕ;
  Viewport = ℕ;
  Spinner = ℕ;
  key_text = λ k. k;
  menu_new = λ items. 0;
  menu_selected_item = λ menu. get_elem? command_catalog menu;
  menu_update = λ k menu. (menu + 1, 0);
  menu_set_size = λ w h menu. menu;
  menu_view = λ menu. [];
  input_zero = "";
  input_new = λ placeholder value limit. value;
  input_value = λ input. input;
  input_set_value = λ value input. value;
  input_focus = λ input. input;
  input_blur = λ input. input;
  input_update = λ k input. (k, 0);
  input_set_width = λ w input. input;
  input_view = λ input. [];
  picker_new = λ types. 0;
  picker_init = λ picker. 0;
  picker_key = λ k picker. (picker, 0);
  picker_event = λ e picker. (e, 0);
  picker_did_select_file = λ k picker. none;
  picker_set_height = λ h picker. picker;
  picker_directory = λ picker. "";
  picker_view = λ picker. [];
  viewport_zero = 0;
  viewport_new = λ w h. 0;
  viewport_resize = λ w h v. v;
  viewport_set_content = λ content v. v;
  viewport_goto_top = λ v. 0;
  viewport_goto_bottom = λ v. v;
  viewport_set_y_offset = λ n v. n;
  viewport_y_offset = λ v. v;
  viewport_height = λ v. 5;
  viewport_at_top = λ v. true;
  viewport_at_bottom = λ v. true;
  viewport_update = λ k v. (v, 0);
  viewport_view = λ v. [];
  spinner_new = 0;
  spinner_update = λ e s. (e, 0);
  spinner_tick = λ s. 0;
  spinner_view = λ s. [];
}

ui-IsMenu : IsMenu ui
ui-IsMenu = record { selected_item = λ menu c e. (menu, e) }

abbrev plain : Texts
plain = record {
  message = λ e. [];
  render = λ style text. text;
  join_horizontal = λ parts. [];
  marshal_body = λ body. ok [];
  format_time = λ t. [];
  format_duration = λ t. [];
}

abbrev responses : Responses
responses = record {
  upload_screenshot = λ b. ok none;
  list_captures = λ b. ok [];
  create_session = λ b. ok none;
  analyze_assets = λ b. err (errorf "not JSON" []);
  initialize_snap_and_solve = λ b. err (errorf "not JSON" []);
  next_step = λ b. ok none;
  dev_prompt = λ b. ok b;
  lesson_content = λ b. ok none;
}

terminal_run : Unit {0}
unfolding boot update handle_key run_now run selected_command new init command_catalog
terminal_run = tt

-- The menu is at the health check, and enter runs it.
entered : (s : System ui ℕ) × Reach ui codec plain responses net "http://localhost" 0 s
unfolding terminal_run
entered = (_, stepped booted (outside (key "enter") _ _ refl refl))

one_request_in_flight_example : requests entered.0.pending ≡ one_if entered.0.model.busy
one_request_in_flight_example = one_request_in_flight ui codec plain responses net entered.1

update_returns_example :
    (m : Model ui) × (fx : List (Effect ui)) × (update ui codec plain entered.0.client.history
        (key "down")
        entered.0.model
      ≡ some (m, fx))
update_returns_example =
    update_returns ui ui-IsMenu codec plain responses net entered.1 (key "down")

columns_fit_example :
    ((column_widths 80).0 + (column_widths 80).1 + (column_widths 80).2 + 2 ≡ 80)
    × (24 ≤ (column_widths 80).0)
    × (10 ≤ (column_widths 80).1)
    × (10 ≤ (column_widths 80).2)
columns_fit_example = columns_fit 80 (omega arith)

abbrev entry : HistoryEntry
entry = record {
  rpc = "Health";
  time = 0;
  duration = 1;
  request = bytes_of "(empty)";
  response = bytes_of "a\nb";
  status = "200 OK";
  error = none;
  method = "GET";
  path = "/healthz";
  raw_request = none;
}

abbrev second : Selection
second = record { focused = true; index = 1; busy = false }

selected_range_example :
    ((history_content plain second 40 (entry ∷ entry ∷ [])).1
      ≡ lines_of plain second 40 (take 1 (entry ∷ entry ∷ [])))
    × ((history_content plain second 40 (entry ∷ entry ∷ [])).2
        ≡ sub_ℕ
            (lines_of plain second 40 (take 1 (entry ∷ entry ∷ []))
              + length (entry_lines plain entry true false 40))
            1)
selected_range_example = selected_range plain second 40 (entry ∷ entry ∷ []) entry refl refl

-- The first entry takes six lines, the second one seven, with its button.
two_entries : (history_content plain second 40 (entry ∷ entry ∷ [])).1 ≡ 6
unfolding history_content content_loop entry_lines summary_line button_lines split bytes_of
    truncate_line
two_entries = refl
