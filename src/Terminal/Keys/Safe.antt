-- ===== src/Terminal/Keys/Safe.antt =====
-- No message makes the terminal program panic.
use tuti_server.Base.{
  ◌<◌, ◌≡◌, refl, sym, ap, subst, String, ◌⊎◌, inl, inr, true, false, List, [], ◌∷◌, Option, none,
  some, length, All, arith, is_empty, Option-cases, ◌==◌, ◌||◌, if_case, get_elem?,
}
use tuti_server.Errors.{Error}
use tuti_server.Client.{Codec, HistoryEntry}
use tuti_server.Terminal.Widgets.{Widgets, Texts}
use tuti_server.Terminal.Model.{
  Model, Focus, focus_menu, focus_form, focus_picker, focus_history, focus_input, selected_command,
}
use tuti_server.Terminal.Panel.{newest_first}
use tuti_server.Terminal.Update.{
  Msg, window_size, key, health_msg, result, tick, other, is_picker, sync_history_viewport,
}
use tuti_server.Terminal.Update.Safe.{handle_result-IsSafe, run_now-Goes, apply_size-IsSafe}
use tuti_server.Terminal.Form.Safe.{handle_form_key-Goes, handle_picker_key-Goes}
use tuti_server.Terminal.Safe.{
  IsChosen, Frame, frame, IsSafe, Goes, IsMenu, All-update_at, focus_input-IsChosen,
  fields_for-IsChosen, selected-HasChoices,
}
use tuti_server.Terminal.Keys.{
  menu_moved, handle_menu_key, replay_selected, move_selection, handle_history_key, handle_key,
  health_seen, update,
}

zero_in_range {ℓ} : {A : Type ℓ} (xs : List A) → (is_empty xs ≡ true) ⊎ (0 < length xs)
zero_in_range [] = inl refl
zero_in_range (x ∷ xs) = inr (omega arith)

pub focus_cases :
    (f : Focus) → (f ≡ focus_picker) ⊎ (f ≡ focus_form) ⊎ (f ≡ focus_history) ⊎ (f ≡ focus_menu)
focus_cases focus_picker = inl refl
focus_cases focus_form = inr (inl refl)
focus_cases focus_history = inr (inr (inl refl))
focus_cases focus_menu = inr (inr (inr refl))

module _ (ui : Widgets) (codec : Codec) (texts : Texts) where
  -- A frame out of the picker whose field index is the first one.
  pub fresh-IsSafe :
      (f : Frame ui)
      → All (IsChosen ui) f.fields
      → f.field_i ≡ 0
      → is_picker f.focus ≡ false
      → IsSafe ui f
  fresh-IsSafe f chosen first out = record {
    chosen = chosen;
    field =
        subst (λ i. (is_empty f.fields ≡ true) ⊎ (i < length f.fields)) (sym first)
          (zero_in_range f.fields);
    target = inl out;
  }

  menu_moved-IsSafe :
      (menu : IsMenu ui) (before : String) (m : Model ui)
      → is_picker m.focus ≡ false
      → IsSafe ui (frame ui m)
      → IsSafe ui (frame ui (menu_moved ui codec texts before m))
  unfolding menu_moved
  menu_moved-IsSafe menu before m out safe =
      if_case (λ m'. IsSafe ui (frame ui m')) ((selected_command ui m).id == before) (λ _. safe)
        (λ _.
          fresh-IsSafe _
            (fields_for-IsChosen ui (selected_command ui m) (selected-HasChoices ui menu m)) refl
            out)

  handle_menu_key-Goes :
      (menu : IsMenu ui) (entries : List HistoryEntry) (k : ui.Key) (m : Model ui)
      → is_picker m.focus ≡ false
      → IsSafe ui (frame ui m)
      → Goes ui (handle_menu_key ui codec texts entries k m)
  unfolding handle_menu_key sync_history_viewport
  handle_menu_key-Goes menu entries k m out safe =
      if_case (Goes ui) (ui.key_text k == "enter")
        (λ _.
          if_case (Goes ui) (is_empty (selected_command ui m).params)
            (λ _. run_now-Goes ui codec texts entries m safe)
            (λ _.
              fresh-IsSafe _
                (All-update_at (IsChosen ui) 0 (focus_input ui) m.fields (focus_input-IsChosen ui)
                  safe.chosen)
                refl refl))
        (λ _.
          if_case (Goes ui) (ui.key_text k == "tab")
            (λ _.
              if_case (Goes ui) (is_empty (newest_first entries)) (λ _. safe)
                (λ _. record { chosen = safe.chosen; field = safe.field; target = inl refl }))
            (λ _.
              menu_moved-IsSafe menu (selected_command ui m).id
                (record m { menu = (ui.menu_update k m.menu).0 }) out safe))

  replay_selected-Goes :
      (entries : List HistoryEntry) (m : Model ui)
      → IsSafe ui (frame ui m)
      → Goes ui (replay_selected ui codec texts entries m)
  unfolding replay_selected sync_history_viewport
  replay_selected-Goes entries m safe =
      elim (Option-cases (get_elem? (newest_first entries) m.history_idx)) [
        | inl e ↦ rw (e, Goes, replay_selected) safe
        | inr (x, e) ↦ rw (e, Goes, replay_selected) safe
      ]

  handle_history_key-Goes :
      (entries : List HistoryEntry) (k : ui.Key) (m : Model ui)
      → IsSafe ui (frame ui m)
      → Goes ui (handle_history_key ui codec texts entries k m)
  unfolding handle_history_key move_selection sync_history_viewport
  handle_history_key-Goes entries k m safe =
      let text = ui.key_text k in
      if_case (Goes ui) ((text == "esc") || (text == "tab"))
        (λ _. record { chosen = safe.chosen; field = safe.field; target = inl refl })
        (λ _.
          if_case (Goes ui) ((text == "up") || (text == "k")) (λ _. safe)
            (λ _.
              if_case (Goes ui) ((text == "down") || (text == "j")) (λ _. safe)
                (λ _.
                  if_case (Goes ui) ((text == "enter") || (text == "r"))
                    (λ _. replay_selected-Goes entries m safe)
                    (λ _.
                      if_case (Goes ui) ((text == "pgup") || (text == "pgdown")) (λ _. safe)
                        (λ _.
                          if_case (Goes ui) (text == "home") (λ _. safe)
                            (λ _. if_case (Goes ui) (text == "end") (λ _. safe) (λ _. safe)))))))

  handle_key-Goes :
      (menu : IsMenu ui) (entries : List HistoryEntry) (k : ui.Key) (m : Model ui)
      → IsSafe ui (frame ui m)
      → Goes ui (handle_key ui codec texts entries k m)
  unfolding handle_key
  handle_key-Goes menu entries k m safe =
      if_case (Goes ui) (ui.key_text k == "ctrl+c") (λ _. safe)
        (λ _.
          if_case (Goes ui) m.busy (λ _. safe)
            (λ _. elim (focus_cases m.focus) [
              | inl e ↦
                  rw (e, Goes) (handle_picker_key-Goes ui codec texts k m (ap is_picker e) safe)
              | inr (inl e) ↦
                  rw (e, Goes)
                    (handle_form_key-Goes ui codec texts entries k m (ap is_picker e) safe
                      (run_now-Goes ui codec texts entries m safe))
              | inr (inr (inl e)) ↦ rw (e, Goes) (handle_history_key-Goes entries k m safe)
              | inr (inr (inr e)) ↦
                  rw (e, Goes) (handle_menu_key-Goes menu entries k m (ap is_picker e) safe)
            ]))

  health_seen-IsSafe :
      (e : Option Error) (m : Model ui)
      → IsSafe ui (frame ui m)
      → IsSafe ui (frame ui (health_seen ui codec texts e m))
  unfolding health_seen
  health_seen-IsSafe none m safe = safe
  health_seen-IsSafe (some e) m safe = safe

  pub update-Goes :
      (menu : IsMenu ui) (entries : List HistoryEntry) (msg : Msg ui) (m : Model ui)
      → IsSafe ui (frame ui m)
      → Goes ui (update ui codec texts entries msg m)
  unfolding update
  update-Goes menu entries (window_size width height) m safe =
      apply_size-IsSafe ui codec texts entries (record m { width = width; height = height }) safe
  update-Goes menu entries (key k) m safe = handle_key-Goes menu entries k m safe
  update-Goes menu entries (health_msg e) m safe = health_seen-IsSafe e m safe
  update-Goes menu entries (result msg) m safe =
      handle_result-IsSafe ui codec texts entries msg m safe
  update-Goes menu entries (tick event) m safe = safe
  update-Goes menu entries (other event) m safe =
      if_case (Goes ui) (is_picker m.focus) (λ _. safe) (λ _. safe)
