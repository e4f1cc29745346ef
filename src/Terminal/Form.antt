-- ===== src/Terminal/Form.antt =====
-- The keys in the form and in the file picker: tuti-tui/internal/tui/update.go.
pub mod Safe
pub mod Quiet
use tuti_server.Base.{
  ℕ, zero, suc, ◌+◌, ◌-◌, ◌%◌, String, Bool, true, false, not, List, [], ◌∷◌, ◌++◌, Option, none,
  some, length, get_elem?, eqb, ltb, ◌==◌, ◌||◌, ◌&&◌, if◌then◌else◌, is_empty, bytes_of,
}
use tuti_server.Errors.{Error}
use tuti_server.Client.{Codec, HistoryEntry}
use tuti_server.Terminal.Commands.{CommandSpec, ParamKind}
use tuti_server.Terminal.Widgets.{Widgets, Texts}
use tuti_server.Terminal.Model.{
  Model, focus_menu, focus_form, focus_picker, focus_history, FormField, selected_command,
  fields_for, focus_input, is_choice, is_file, update_at, health_ok, health_down,
}
use tuti_server.Terminal.Run.{Call, check_health, replay_entry}
use tuti_server.Terminal.Panel.{newest_first}
use tuti_server.Terminal.Update.{
  Effect, quit, task, start, Msg, window_size, key, health_msg, result, tick, other, Next,
  is_picker, sync_history_viewport, handle_result, run_now, apply_size,
}

module _ (ui : Widgets) (codec : Codec) (texts : Texts) where
  -- `f` on the field that the index names; an index out of range is a panic.
  at_field : ℕ → (FormField ui → FormField ui) → Model ui → Option (Model ui)
  at_field i f m = elim (get_elem? m.fields i) [
    | none ↦ none
    | some _ ↦ some (record m { fields = update_at i f m.fields })
  ]

  blur_input : FormField ui → FormField ui
  blur_input f = if is_choice f.spec.kind then f else record f { input = ui.input_blur f.input }

  unfoldable blur_field : Model ui → Option (Model ui)
  unfolding at_field blur_input
  blur_field m = at_field m.field_i blur_input m

  unfoldable focus_field : Model ui → Option (Model ui)
  unfolding at_field
  focus_field m = at_field m.field_i (focus_input ui) m

  then_idle : Option (Model ui) → Next ui
  then_idle none = none
  then_idle (some m) = some (m, [])

  -- The index of the choice to the left or to the right, around the end; Go divides by zero where a field
  -- has no choices.
  unfoldable next_choice : Bool → FormField ui → Option (FormField ui)
  next_choice left f =
      let n = length f.spec.choices in
      let i = if left then (f.choice_idx + n - 1) % n else (f.choice_idx + 1) % n in
      if eqb n 0 then none else some (record f { choice_idx = i })

  -- `esc`: out of the form
  unfoldable leave_form : Model ui → Option (Model ui)
  unfolding blur_field
  leave_form m = elim (blur_field m) [
    | none ↦ none
    | some m ↦ some (record m { focus = focus_menu })
  ]

  -- `tab` and `shift+tab`: to the next field, or out of the form behind the last one, and back.
  unfoldable next_field : Model ui → Option (Model ui)
  unfolding blur_field focus_field
  next_field m = elim (blur_field m) [
    | none ↦ none
    | some m ↦
        let next = focus_field (record m { field_i = m.field_i + 1 }) in
        if eqb (m.field_i + 1) (length m.fields)
        then some (record m { focus = focus_menu })
        else next
  ]

  unfoldable previous_field : Model ui → Option (Model ui)
  unfolding blur_field focus_field
  previous_field m = elim (blur_field m) [
    | none ↦ none
    | some m ↦
        let previous = focus_field (record m { field_i = m.field_i - 1 }) in
        if eqb m.field_i 0 then some (record m { focus = focus_menu }) else previous
  ]

  unfoldable open_picker : Model ui → Next ui
  unfolding blur_field
  open_picker m = elim (blur_field m) [
    | none ↦ none
    | some m ↦ some (
      record m { picker_target = m.field_i; focus = focus_picker },
      task (ui.picker_init m.picker) ∷ [],
    )
  ]

  -- `left` and `right` on a choice
  unfoldable choose : Bool → FormField ui → Model ui → Next ui
  unfolding next_choice
  choose left f m = elim (next_choice left f) [
    | none ↦ none
    | some f ↦ some (record m { fields = update_at m.field_i (λ _. f) m.fields }, [])
  ]

  type_in : ui.Key → FormField ui → Model ui → Next ui
  type_in k f m =
      let (input, cmd) = ui.input_update k f.input in
      some (
        record m { fields = update_at m.field_i (λ g. record g { input = input }) m.fields },
        task cmd ∷ [],
      )

  -- `handleFormKey` with the current field
  unfoldable form_key : List HistoryEntry → ui.Key → FormField ui → Model ui → Next ui
  unfolding then_idle leave_form next_field previous_field open_picker choose type_in
  form_key entries k f m =
      let text = ui.key_text k in
      if text == "esc"
      then then_idle (leave_form m)
      else if text == "tab"
      then then_idle (next_field m)
      else if text == "shift+tab"
      then then_idle (previous_field m)
      else if text == "ctrl+f"
      then if is_file f.spec.kind then open_picker m else some (m, [])
      else if (text == "ctrl+s") || (text == "enter")
      then run_now ui codec texts entries m
      else if ((text == "left") || (text == "right")) && is_choice f.spec.kind
      then choose (text == "left") f m
      else if is_choice f.spec.kind
      then some (m, [])
      else type_in k f m

  unfoldable pub handle_form_key : List HistoryEntry → ui.Key → Model ui → Next ui
  unfolding form_key
  handle_form_key entries k m =
      if is_empty m.fields
      then some (record m { focus = focus_menu }, [])
      else elim (get_elem? m.fields m.field_i) [ none ↦ none | some f ↦ form_key entries k f m ]

  picked : String → Model ui → Option (Model ui)
  unfolding at_field focus_field
  picked path m =
      elim (at_field m.picker_target (λ f. record f { input = ui.input_set_value path f.input })
        m) [
          | none ↦ none
          | some m ↦ focus_field (record m { focus = focus_form; field_i = m.picker_target })
        ]

  unfoldable pub handle_picker_key : ui.Key → Model ui → Next ui
  unfolding then_idle focus_field picked
  handle_picker_key k m =
      let (picker, cmd) = ui.picker_key k m.picker in
      let m' : Model ui = record m { picker = picker } in
      if ui.key_text k == "esc"
      then then_idle (focus_field (record m { focus = focus_form }))
      else elim (ui.picker_did_select_file k picker) [
        | some path ↦ then_idle (picked path m')
        | none ↦ some (m', task cmd ∷ [])
      ]
