-- ===== src/Terminal/View.antt =====
-- What the terminal program draws: the rest of tuti-tui/internal/tui/view.go. Texts are bytes, as Go's
-- strings are, and a window of fewer than two places is drawn with a box of width 0.
use tuti_server.Base.{
  ℕ, suc, ◌+◌, ◌-◌, String, Bool, true, false, not, List, [], ◌∷◌, ◌++◌, length, eqb, ◌==◌, ◌&&◌,
  ◌||◌, if◌then◌else◌, is_empty, Bytes, bytes_of, join, itoa,
}
use tuti_server.Client.{HistoryEntry}
use tuti_server.Terminal.Commands.{param_text, param_file, param_choice}
use tuti_server.Terminal.Widgets.{
  Widgets, Texts, Style, title_style, subtle_style, health_ok_style, health_down_style,
  health_unk_style, status_bar_style, field_label_style, field_label_focus_style, choice_style,
  choice_selected_style, file_hint_style, action_button_style, sending_style, scroll_active_style,
  scroll_dim_style, help_style, box_style, box_focus_style,
}
use tuti_server.Terminal.Model.{
  Model, Focus, focus_menu, focus_form, focus_picker, focus_history, FormField, health_unknown,
  health_ok, health_down, selected_command,
}
use tuti_server.Terminal.Panel.{column_widths}
use tuti_server.Terminal.Update.{is_history, is_picker}

newline : Bytes
newline = 10 ∷ []

abbrev is_menu : Focus → Bool
is_menu focus_menu = true
is_menu _ = false

abbrev is_form : Focus → Bool
is_form focus_form = true
is_form _ = false

-- `labelled += …` for a session or a capture that there is
context : String → String → List Bytes
context label id = if id == "" then [] else (bytes_of label ++ bytes_of id) ∷ []

module _ (ui : Widgets) (texts : Texts) where
  render_text : Style → String → Bytes
  render_text style text = texts.render style (bytes_of text)

  box : Bool → ℕ → Style
  box focused width = if focused then box_focus_style width else box_style width

  -- `header`
  header : String → Bytes
  unfolding render_text
  header base_url =
      render_text title_style "tuti-tui" ++ bytes_of " " ++ render_text subtle_style base_url

  choice_parts : ℕ → ℕ → List String → List Bytes
  unfolding render_text
  choice_parts i selected [] = []
  choice_parts i selected (choice ∷ rest) =
      (if eqb i selected
        then texts.render choice_selected_style (bytes_of "● " ++ bytes_of choice)
        else texts.render choice_style (bytes_of "○ " ++ bytes_of choice))
      ∷ choice_parts (suc i) selected rest

  -- `renderChoices`
  unfoldable render_choices : FormField ui → Bytes
  unfolding choice_parts
  render_choices f = join (bytes_of "   ") (choice_parts 0 f.choice_idx f.spec.choices)

  -- The input of a field, under its label
  field_body : FormField ui → Bytes
  unfolding render_choices render_text
  field_body f = elim (f.spec.kind) [
    | param_choice ↦ bytes_of "    " ++ render_choices f
    | param_file ↦
        bytes_of "    "
        ++ ui.input_view f.input
        ++ bytes_of "\n    "
        ++ render_text file_hint_style "Ctrl+F to browse your machine for a file"
    | param_text ↦ bytes_of "    " ++ ui.input_view f.input
  ]

  field_view : Bool → FormField ui → Bytes
  unfolding newline field_body
  field_view focused f =
      newline
      ++ bytes_of (if focused then "▸ " else "  ")
      ++ texts.render (if focused then field_label_focus_style else field_label_style)
          (bytes_of f.spec.name ++ bytes_of (if f.spec.optional then "" else " *"))
      ++ newline
      ++ field_body f
      ++ newline

  fields_view : Bool → ℕ → ℕ → List (FormField ui) → Bytes
  unfolding field_view
  fields_view in_form i selected [] = []
  fields_view in_form i selected (f ∷ rest) =
      field_view (in_form && eqb i selected) f ++ fields_view in_form (suc i) selected rest

  -- `formView`
  form_view : Model ui → Bytes
  unfolding render_text newline fields_view
  form_view m =
      let c = selected_command ui m in
      render_text title_style c.name
      ++ newline
      ++ render_text subtle_style c.desc
      ++ newline
      ++ (if is_empty c.params
          then newline ++ render_text subtle_style "No parameters."
          else fields_view (is_form m.focus) 0 m.field_i m.fields)
      ++ newline
      ++ (if m.busy && (is_menu m.focus || is_form m.focus)
          then render_text sending_style "⏳ Sending — waiting for response..."
          else render_text action_button_style "[ enter ▶ Submit ]")

  -- `pickerView`
  picker_view : Model ui → Bytes
  unfolding render_text newline
  picker_view m =
      render_text title_style "Choose a file"
      ++ newline
      ++ render_text subtle_style (ui.picker_directory m.picker)
      ++ newline
      ++ newline
      ++ ui.picker_view m.picker

  -- The counter and the arrows beside the heading of the panel, where there are entries
  history_heading : ℕ → Model ui → Bytes
  unfolding render_text
  history_heading count m =
      bytes_of " "
      ++ texts.render subtle_style (
          if is_history m.focus
          then bytes_of (itoa (m.history_idx + 1)) ++ bytes_of "/" ++ bytes_of (itoa count)
          else bytes_of "(" ++ bytes_of (itoa count) ++ bytes_of ")")
      ++ bytes_of " "
      ++ render_text
          (if ui.viewport_at_top m.history_viewport then scroll_dim_style else scroll_active_style)
          "▲"
      ++ render_text
          (if ui.viewport_at_bottom m.history_viewport
            then scroll_dim_style
            else scroll_active_style)
          "▼"
      ++ (if is_history m.focus
          then []
          else bytes_of " " ++ render_text subtle_style "(tab to scroll)")

  -- `historyView`
  history_view : List HistoryEntry → Model ui → Bytes
  unfolding render_text newline history_heading
  history_view entries m =
      render_text title_style "History"
      ++ (if is_empty entries then [] else history_heading (length entries) m)
      ++ newline
      ++ ui.viewport_view m.history_viewport

  -- `healthBadge`
  health_badge : Model ui → Bytes
  unfolding render_text
  health_badge m = elim (m.health) [
    | health_ok ↦ render_text health_ok_style "● connected"
    | health_down ↦ render_text health_down_style "● unreachable"
    | health_unknown ↦
        texts.render health_unk_style (ui.spinner_view m.spinner ++ bytes_of " checking")
  ]

  -- `statusBar`
  status_bar : Model ui → Bytes
  unfolding render_text health_badge context
  status_bar m =
      let ctx =
        context "snap: " m.snap_session_id
        ++ context "solve: " m.solve_session_id
        ++ context "capture: " m.last_capture_id in
      health_badge m
      ++ (if m.busy
          then bytes_of "  "
            ++ ui.spinner_view m.spinner
            ++ bytes_of " "
            ++ render_text sending_style "sending — waiting for response..."
          else [])
      ++ (if is_empty ctx
          then []
          else bytes_of "  " ++ texts.render subtle_style (join (bytes_of "  ") ctx))
      ++ (if is_empty m.status_msg
          then []
          else bytes_of "  " ++ texts.render status_bar_style m.status_msg)

  -- `footer`
  footer : Focus → Bytes
  unfolding render_text
  footer focus_menu =
      render_text help_style "↑/↓ select · enter run/edit params · tab history panel · ctrl+c quit"
  footer focus_history =
      render_text help_style
        "↑/↓ select call · pgup/pgdn/home/end scroll · enter replay · esc/tab back to menu · ctrl+c quit"
  footer focus_picker = render_text help_style "↑/↓ navigate · enter open/select · esc cancel"
  footer focus_form =
      render_text help_style
        "tab/shift+tab move · ←/→ choose · ctrl+f browse file · enter/ctrl+s run · esc back · ctrl+c quit"

  -- `View`
  unfoldable pub view : String → List HistoryEntry → Model ui → Bytes
  unfolding header form_view picker_view history_view status_bar footer newline box
  view base_url entries m =
      let (menu_w, form_w, history_w) = column_widths m.width in
      let left = texts.render (box (is_menu m.focus) (menu_w - 2)) (ui.menu_view m.menu) in
      let mid =
        texts.render (box (is_form m.focus || is_picker m.focus) (form_w - 2))
          (if is_picker m.focus then picker_view m else form_view m) in
      let right =
        texts.render (box (is_history m.focus) (history_w - 2)) (history_view entries m) in
      let screen =
        header base_url
        ++ newline
        ++ texts.join_horizontal (left ∷ bytes_of " " ∷ mid ∷ bytes_of " " ∷ right ∷ [])
        ++ newline
        ++ texts.render (box_style (m.width - 2)) (ui.viewport_view m.viewport)
        ++ newline
        ++ status_bar m
        ++ newline
        ++ footer m.focus in
      if m.quitting then [] else if not m.ready then bytes_of "starting up...\n" else screen
