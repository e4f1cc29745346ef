-- ===== src/Terminal/Keys.antt =====
-- The keys in the menu and in the history panel, and what each message does:
-- tuti-tui/internal/tui/update.go.
pub mod Safe
pub mod Quiet
use tuti_server.Base.{
  ℕ, zero, suc, ◌+◌, ◌-◌, ◌%◌, String, Bool, true, false, not, List, [], ◌∷◌, ◌++◌, Option, none,
  some, length, get_elem?, eqb, ltb, ◌==◌, ◌||◌, ◌&&◌, if◌then◌else◌, is_empty, bytes_of,
}
use tuti_server.Errors.{Error}
use tuti_server.Client.{Codec, HistoryEntry}
use tuti_server.Terminal.Commands.{CommandSpec, ParamKind}
use tuti_server.Terminal.Widgets.{Widgets, Texts}
use tuti_server.Terminal.Model.{
  Model, focus_menu, focus_form, focus_picker, focus_history, FormField, selected_command,
  fields_for, focus_input, is_choice, is_file, update_at, health_ok, health_down,
}
use tuti_server.Terminal.Run.{Call, check_health, replay_entry}
use tuti_server.Terminal.Panel.{newest_first}
use tuti_server.Terminal.Update.{
  Effect, quit, task, start, Msg, window_size, key, health_msg, result, tick, other, Next,
  is_picker, sync_history_viewport, handle_result, run_now, apply_size,
}
use tuti_server.Terminal.Form.{handle_form_key, handle_picker_key}

module _ (ui : Widgets) (codec : Codec) (texts : Texts) where
  -- The command that the menu has moved to fills the form, if it is another one.
  menu_moved : String → Model ui → Model ui
  menu_moved before m =
      if (selected_command ui m).id == before
      then m
      else record m { fields = fields_for ui (selected_command ui m); field_i = 0 }

  unfoldable handle_menu_key : List HistoryEntry → ui.Key → Model ui → Next ui
  unfolding menu_moved
  handle_menu_key entries k m =
      if ui.key_text k == "enter"
      then if is_empty (selected_command ui m).params
        then run_now ui codec texts entries m
        else some (
          record m {
            focus = focus_form;
            field_i = 0;
            fields = update_at 0 (focus_input ui) m.fields;
          },
          [],
        )
      else if ui.key_text k == "tab"
      then if is_empty (newest_first entries)
        then some (m, [])
        else some (
          sync_history_viewport ui codec texts entries
              (record m { focus = focus_history; history_idx = 0 }),
          [],
        )
      else let (menu, cmd) = ui.menu_update k m.menu in
        some (menu_moved (selected_command ui m).id (record m { menu = menu }), task cmd ∷ [])

  -- `enter` and `r` in the history panel
  unfoldable replay_selected : List HistoryEntry → Model ui → Next ui
  replay_selected entries m = elim (get_elem? (newest_first entries) m.history_idx) [
    | none ↦ some (m, [])
    | some e ↦ some (
      sync_history_viewport ui codec texts entries (record m {
        busy = true;
        status_msg = bytes_of "replaying " ++ bytes_of e.rpc ++ bytes_of "...";
      }),
      start (replay_entry e) ∷ [],
    )
  ]

  -- The index one up or one down, within the entries.
  unfoldable moved_idx : Bool → ℕ → ℕ → ℕ
  moved_idx true n i = i - 1
  moved_idx false n i = if ltb (i + 1) n then i + 1 else i

  unfoldable move_selection : List HistoryEntry → Bool → Model ui → Next ui
  unfolding moved_idx
  move_selection entries up m = some (
    sync_history_viewport ui codec texts entries
        (record m { history_idx = moved_idx up (length (newest_first entries)) m.history_idx }),
    [],
  )

  unfoldable handle_history_key : List HistoryEntry → ui.Key → Model ui → Next ui
  unfolding replay_selected move_selection
  handle_history_key entries k m =
      let text = ui.key_text k in
      let (scrolled, cmd) = ui.viewport_update k m.history_viewport in
      if (text == "esc") || (text == "tab")
      then some (record m { focus = focus_menu }, [])
      else if (text == "up") || (text == "k")
      then move_selection entries true m
      else if (text == "down") || (text == "j")
      then move_selection entries false m
      else if (text == "enter") || (text == "r")
      then replay_selected entries m
      else if (text == "pgup") || (text == "pgdown")
      then some (record m { history_viewport = scrolled }, task cmd ∷ [])
      else if text == "home"
      then some (record m { history_viewport = ui.viewport_goto_top m.history_viewport }, [])
      else if text == "end"
      then some (record m { history_viewport = ui.viewport_goto_bottom m.history_viewport }, [])
      else some (m, [])

  unfoldable pub handle_key : List HistoryEntry → ui.Key → Model ui → Next ui
  unfolding handle_menu_key handle_history_key handle_form_key handle_picker_key
  handle_key entries k m =
      if ui.key_text k == "ctrl+c"
      then some (record m { quitting = true }, quit ∷ [])
      else if m.busy
      then some (m, [])
      else elim (m.focus) [
        | focus_picker ↦ handle_picker_key ui codec texts k m
        | focus_form ↦ handle_form_key ui codec texts entries k m
        | focus_history ↦ handle_history_key entries k m
        | focus_menu ↦ handle_menu_key entries k m
      ]

  health_seen : Option Error → Model ui → Model ui
  health_seen (some e) m = record m {
    health = health_down;
    status_msg = bytes_of "server unreachable: " ++ texts.message e;
  }
  health_seen none m = record m { health = health_ok; status_msg = bytes_of "connected" }

  -- `Update`
  unfoldable pub update : List HistoryEntry → Msg ui → Model ui → Next ui
  unfolding health_seen
  update entries (window_size width height) m =
      some (apply_size ui codec texts entries (record m { width = width; height = height }), [])
  update entries (key k) m = handle_key entries k m
  update entries (health_msg e) m = some (health_seen e m, [])
  update entries (result msg) m = some (handle_result ui codec texts entries msg m, [])
  update entries (tick event) m =
      let (spinner, cmd) = ui.spinner_update event m.spinner in
      some (record m { spinner = spinner }, task cmd ∷ [])
  update entries (other event) m =
      let (picker, cmd) = ui.picker_event event m.picker in
      if is_picker m.focus then some (record m { picker = picker }, task cmd ∷ []) else some (m, [])

  -- `Init`
  unfoldable pub init : Model ui → List (Effect ui)
  init m = start check_health ∷ task (ui.spinner_tick m.spinner) ∷ []
