-- ===== src/Terminal/Update.antt =====
-- How the terminal program reacts to messages: tuti-tui/internal/tui/update.go. `entries` is what
-- `client.History()` returns at that time. A panic is `none`.
pub mod Safe
pub mod Quiet
use Prim.Native.String as S
use tuti_server.Base.{
  ℕ, ◌+◌, ◌-◌, ℤ, pos, sub_ℕ, leb_ℤ, String, Bool, true, false, not, List, [], ◌∷◌, ◌++◌, map,
  Option, none, some, ltb, ◌==◌, ◌||◌, ◌&&◌, if◌then◌else◌, is_empty, Bytes, bytes_of, join,
}
use tuti_server.Errors.{Error, Result, ok, err}
use tuti_server.Client.{Codec, HistoryEntry}
use tuti_server.Client.Json.{pretty_raw}
use tuti_server.Terminal.Widgets.{Widgets, Texts, Body, error_style, summary_style, json_style}
use tuti_server.Terminal.Model.{
  Model, Focus, focus_menu, focus_form, focus_picker, focus_history, FormField, selected_command,
  health_ok, health_down,
}
use tuti_server.Terminal.Run.{ResultMsg, Call, Started, call, at_once, run}
use tuti_server.Terminal.Panel.{
  Selection, column_widths, top_row_height, history_content_width, newest_first, history_content,
  at_least,
}

abbrev pub is_history : Focus → Bool
is_history focus_history = true
is_history _ = false

abbrev pub is_picker : Focus → Bool
is_picker focus_picker = true
is_picker _ = false

-- A `tea.Cmd` that a handler returns.
pub data Effect (ui : Widgets) : Type 0 where
  quit : Effect ui
  task : ui.Task → Effect ui
  start : Call → Effect ui

-- A `tea.Msg`: `other` is one that the program knows nothing of.
pub data Msg (ui : Widgets) : Type 0 where
  window_size : ℕ → ℕ → Msg ui
  key : ui.Key → Msg ui
  health_msg : Option Error → Msg ui
  result : ResultMsg → Msg ui
  tick : ui.Event → Msg ui
  other : ui.Event → Msg ui

-- What a handler returns.
abbrev pub Next : Widgets → Type 0
Next ui = Option (Model ui × List (Effect ui))

-- `if s != "" { x = s }`
abbrev pub unless_empty : String → String → String
unless_empty s x = if s == "" then x else s

module _ (ui : Widgets) (codec : Codec) (texts : Texts) where
  -- `api.Pretty`
  unfoldable pub pretty : Body → Bytes
  pretty v = elim (texts.marshal_body v) [
    | ok data' ↦ pretty_raw codec.json data'
    | err e ↦ bytes_of "<error: " ++ texts.message e ++ bytes_of ">"
  ]

  unfoldable pub sync_viewport : Model ui → Model ui
  sync_viewport m = record m {
    viewport =
        ui.viewport_goto_bottom
          (ui.viewport_set_content (join (10 ∷ 10 ∷ []) m.rendered) m.viewport);
  }

  -- The viewport with the new content, scrolled to the start of the selection if that is not in view.
  scrolled : ℕ → ℤ → ui.Viewport → ui.Viewport
  scrolled sel_start sel_end v =
      let top = ui.viewport_y_offset v in
      let in_view =
        leb_ℤ (pos top) (pos sel_start) && leb_ℤ sel_end (sub_ℕ (top + ui.viewport_height v) 1) in
      if not (leb_ℤ (pos sel_start) sel_end) || in_view
      then v
      else ui.viewport_set_y_offset sel_start v

  unfoldable pub sync_history_viewport : List HistoryEntry → Model ui → Model ui
  unfolding scrolled
  sync_history_viewport entries m =
      let (content, sel_start, sel_end) =
        history_content texts
          (record { focused = is_history m.focus; index = m.history_idx; busy = m.busy })
          (history_content_width m.width) (newest_first entries) in
      record m {
        history_viewport =
            scrolled sel_start sel_end (ui.viewport_set_content content m.history_viewport);
      }

  unfoldable pub append_line : Bytes → Model ui → Model ui
  append_line line m = sync_viewport (record m { rendered = m.rendered ++ (line ∷ []) })

  -- What a result shows: its summary, and its body on the next line.
  unfoldable result_text : ResultMsg → Bytes
  unfolding pretty
  result_text msg =
      let summary = if is_empty msg.summary then [] else texts.render summary_style msg.summary in
      elim (msg.body) [
        | none ↦ summary
        | some v ↦
            summary
            ++ (if is_empty summary then [] else 10 ∷ [])
            ++ texts.render json_style (pretty v)
      ]

  show_error : ResultMsg → Error → Model ui → Model ui
  show_error msg e m =
      append_line
        (texts.render error_style (bytes_of msg.title ++ bytes_of " error: ") ++ texts.message e)
        (record m { status_msg = bytes_of msg.title ++ bytes_of ": error" })

  show_result : ResultMsg → Model ui → Model ui
  unfolding result_text
  show_result msg m = append_line (result_text msg) (record m {
    status_msg = bytes_of msg.title ++ bytes_of ": ok";
    snap_session_id = unless_empty msg.set_snap_session_id m.snap_session_id;
    solve_session_id = unless_empty msg.set_solve_session_id m.solve_session_id;
    last_capture_id = unless_empty msg.set_last_capture_id m.last_capture_id;
  })

  -- `handleResult`, which starts nothing
  unfoldable pub handle_result : List HistoryEntry → ResultMsg → Model ui → Model ui
  unfolding show_error show_result
  handle_result entries msg m =
      let idle = sync_history_viewport entries (record m { busy = false }) in
      if msg.title == "__clear__"
      then sync_viewport (record idle { rendered = [] })
      else elim (msg.error) [ some e ↦ show_error msg e idle | none ↦ show_result msg idle ]

  -- `runNow`
  unfoldable pub run_now : List HistoryEntry → Model ui → Next ui
  run_now entries m = elim (run ui m) [
    | none ↦ none
    | some (at_once msg) ↦ some (handle_result entries msg m, [])
    | some (call c) ↦ some (
      record m {
        busy = true;
        status_msg = bytes_of "running " ++ bytes_of (selected_command ui m).name ++ bytes_of "...";
      },
      start c ∷ [],
    )
  ]

  -- `applySize`. The heights are Go's: a difference that would be negative is below the minimum.
  unfoldable pub apply_size : List HistoryEntry → Model ui → Model ui
  apply_size entries m =
      let (menu_w, form_w, history_w) = column_widths m.width in
      let top_h = top_row_height m.height in
      let log_h = at_least 3 (m.height - 2 - 1 - 1 - top_h - 2) in
      let history_h = at_least 1 (top_h - 3) in
      sync_history_viewport entries (
        sync_viewport (record m {
          menu = ui.menu_set_size (menu_w - 2) (top_h - 2) m.menu;
          fields =
              map
                (λ (f : FormField ui). record f { input = ui.input_set_width (form_w - 6) f.input })
                m.fields;
          picker = ui.picker_set_height (top_h - 2) m.picker;
          viewport =
              if m.ready
              then ui.viewport_resize m.width log_h m.viewport
              else ui.viewport_new m.width log_h;
          history_viewport =
              if m.ready
              then ui.viewport_resize (history_w - 6) history_h m.history_viewport
              else ui.viewport_new (history_w - 6) history_h;
          ready = true;
        }))
