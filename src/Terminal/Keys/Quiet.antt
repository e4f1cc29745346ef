-- ===== src/Terminal/Keys/Quiet.antt =====
-- A message from outside starts a call only where the model is not busy, and then leaves it busy.
use tuti_server.Base.{
  ◌≡◌, refl, Bool-cases, Bool, true, false, List, [], ◌∷◌, Option, none, some, get_elem?, is_empty,
  Option-cases, inl, inr, if_case, ◌==◌, ◌||◌, String, if◌then◌else◌,
}
use tuti_server.Errors.{Error}
use tuti_server.Client.{Codec, HistoryEntry}
use tuti_server.Terminal.Widgets.{Widgets, Texts}
use tuti_server.Terminal.Model.{Model, selected_command}
use tuti_server.Terminal.Run.{ResultMsg}
use tuti_server.Terminal.Panel.{newest_first}
use tuti_server.Terminal.Update.{Next, quit, health_msg, result, sync_history_viewport}
use tuti_server.Terminal.Update.Quiet.{Flies, run_now-Flies, starts, handle_result-idle}
use tuti_server.Terminal.Form.Quiet.{handle_form_key-Flies, handle_picker_key-Flies}
use tuti_server.Terminal.Keys.Safe.{focus_cases}
use tuti_server.Terminal.Keys.{
  menu_moved, handle_menu_key, replay_selected, move_selection, handle_history_key, handle_key,
  health_seen, update,
}

module _ (ui : Widgets) (codec : Codec) (texts : Texts) where
  menu_moved-busy :
      (before : String) (m : Model ui) → (menu_moved ui codec texts before m).busy ≡ m.busy
  unfolding menu_moved
  menu_moved-busy before m =
      if_case (λ (m' : Model ui). m'.busy ≡ m.busy) ((selected_command ui m).id == before)
        (λ _. refl) (λ _. refl)

  handle_menu_key-Flies :
      (entries : List HistoryEntry) (k : ui.Key) (m : Model ui)
      → m.busy ≡ false
      → Flies ui (handle_menu_key ui codec texts entries k m)
  unfolding handle_menu_key sync_history_viewport
  handle_menu_key-Flies entries k m idle =
      if_case (Flies ui) (ui.key_text k == "enter")
        (λ _.
          if_case (Flies ui) (is_empty (selected_command ui m).params)
            (λ _. run_now-Flies ui codec texts entries m) (λ _. rw idle refl))
        (λ _.
          if_case (Flies ui) (ui.key_text k == "tab")
            (λ _.
              if_case (Flies ui) (is_empty (newest_first entries)) (λ _. rw idle refl)
                (λ _. rw idle refl))
            (λ _.
              rw
                (menu_moved-busy (selected_command ui m).id
                  (record m { menu = (ui.menu_update k m.menu).0 }))
                (rw idle refl)))

  replay_selected-Flies :
      (entries : List HistoryEntry) (m : Model ui)
      → m.busy ≡ false
      → Flies ui (replay_selected ui codec texts entries m)
  unfolding replay_selected sync_history_viewport
  replay_selected-Flies entries m idle =
      elim (Option-cases (get_elem? (newest_first entries) m.history_idx)) [
        | inl e ↦ rw (e, Flies, replay_selected) (rw idle refl)
        | inr (x, e) ↦ rw (e, Flies, replay_selected) refl
      ]

  handle_history_key-Flies :
      (entries : List HistoryEntry) (k : ui.Key) (m : Model ui)
      → m.busy ≡ false
      → Flies ui (handle_history_key ui codec texts entries k m)
  unfolding handle_history_key move_selection sync_history_viewport
  handle_history_key-Flies entries k m idle =
      let text = ui.key_text k in
      if_case (Flies ui) ((text == "esc") || (text == "tab")) (λ _. rw idle refl)
        (λ _.
          if_case (Flies ui) ((text == "up") || (text == "k")) (λ _. rw idle refl)
            (λ _.
              if_case (Flies ui) ((text == "down") || (text == "j")) (λ _. rw idle refl)
                (λ _.
                  if_case (Flies ui) ((text == "enter") || (text == "r"))
                    (λ _. replay_selected-Flies entries m idle)
                    (λ _.
                      if_case (Flies ui) ((text == "pgup") || (text == "pgdown"))
                        (λ _. rw idle refl)
                        (λ _.
                          if_case (Flies ui) (text == "home") (λ _. rw idle refl)
                            (λ _.
                              if_case (Flies ui) (text == "end") (λ _. rw idle refl)
                                (λ _. rw idle refl)))))))

  -- A key on a model that is not busy.
  pub handle_key-Flies :
      (entries : List HistoryEntry) (k : ui.Key) (m : Model ui)
      → m.busy ≡ false
      → Flies ui (handle_key ui codec texts entries k m)
  unfolding handle_key
  handle_key-Flies entries k m idle =
      if_case (Flies ui) (ui.key_text k == "ctrl+c") (λ _. rw idle refl)
        (λ _.
          if_case (Flies ui) m.busy (λ _. rw idle refl)
            (λ _. elim (focus_cases m.focus) [
              | inl e ↦ rw (e, Flies) (handle_picker_key-Flies ui codec texts k m idle)
              | inr (inl e) ↦ rw (e, Flies) (handle_form_key-Flies ui codec texts entries k m idle)
              | inr (inr (inl e)) ↦ rw (e, Flies) (handle_history_key-Flies entries k m idle)
              | inr (inr (inr e)) ↦ rw (e, Flies) (handle_menu_key-Flies entries k m idle)
            ]))

  -- A key on a model that is busy starts nothing and leaves it busy.
  pub handle_key_busy :
      (entries : List HistoryEntry) (k : ui.Key) (m : Model ui)
      → m.busy ≡ true
      → handle_key ui codec texts entries k m
        ≡ some (
            if ui.key_text k == "ctrl+c"
            then (record m { quitting = true }, quit ∷ [])
            else (m, []))
  unfolding handle_key
  handle_key_busy entries k m busy = elim (Bool-cases (ui.key_text k == "ctrl+c")) [
    | inl e ↦ rw e refl
    | inr e ↦ rw e (rw busy refl)
  ]

  -- A handler that starts nothing and leaves `busy` at `b`.
  abbrev pub Settled : Bool → Next ui → Type 0
  Settled b none = Unit
  Settled b (some (m, fx)) = (starts ui fx ≡ 0) × (m.busy ≡ b)

  pub health_msg-Settled :
      (entries : List HistoryEntry) (e : Option Error) (m : Model ui)
      → Settled m.busy (update ui codec texts entries (health_msg e) m)
  unfolding update health_seen
  health_msg-Settled entries none m = (refl, refl)
  health_msg-Settled entries (some e) m = (refl, refl)

  pub result-Settled :
      (entries : List HistoryEntry) (msg : ResultMsg) (m : Model ui)
      → Settled false (update ui codec texts entries (result msg) m)
  unfolding update
  result-Settled entries msg m = (refl, handle_result-idle ui codec texts entries msg m)
