-- ===== src/Terminal/Update/Safe.antt =====
-- Showing a result, running a command and a new size of the window keep the indices in range.
use tuti_server.Base.{
  ℕ, ◌-◌, ◌<◌, sym, subst, ◌∙◌, ◌≡◌, refl, ◌⊎◌, inl, inr, Bool, true, false, List, [], ◌∷◌, map,
  All, arith, is_empty, Option-cases, ◌==◌, if_case, length-map,
}
use tuti_server.Client.{Codec, HistoryEntry}
use tuti_server.Terminal.Widgets.{Widgets, Texts}
use tuti_server.Terminal.Model.{Model, FormField}
use tuti_server.Terminal.Run.{ResultMsg}
use tuti_server.Terminal.Run.Safe.{run-cases}
use tuti_server.Terminal.Update.{
  sync_viewport, sync_history_viewport, append_line, show_error, show_result, handle_result,
  run_now, apply_size, is_picker,
}
use tuti_server.Terminal.Panel.{column_widths}
use tuti_server.Terminal.Safe.{IsChosen, frame, IsSafe, Goes}

subst2_safe :
    {b b' : Bool} {i n n' : ℕ} → b' ≡ b → n' ≡ n → (b ≡ true) ⊎ (i < n) → (b' ≡ true) ⊎ (i < n')
subst2_safe e e' (inl h) = inl (e ∙ h)
subst2_safe e e' (inr h) = inr (omega arith)

module _ (ui : Widgets) (codec : Codec) (texts : Texts) where
  pub handle_result-IsSafe :
      (entries : List HistoryEntry) (msg : ResultMsg) (m : Model ui)
      → IsSafe ui (frame ui m)
      → IsSafe ui (frame ui (handle_result ui codec texts entries msg m))
  unfolding handle_result show_error show_result append_line sync_viewport sync_history_viewport
  handle_result-IsSafe entries msg m safe =
      if_case (λ m'. IsSafe ui (frame ui m')) (msg.title == "__clear__") (λ _. safe)
        (λ _. elim (Option-cases msg.error) [ inl e ↦ rw e safe | inr (x, e) ↦ rw e safe ])

  pub run_now-Goes :
      (entries : List HistoryEntry) (m : Model ui)
      → IsSafe ui (frame ui m)
      → Goes ui (run_now ui codec texts entries m)
  unfolding run_now
  run_now-Goes entries m safe = elim (run-cases ui m safe.chosen) [
    | inl (c, e) ↦ rw (e, Goes, run_now) safe
    | inr (msg, e) ↦ rw (e, Goes, run_now) (handle_result-IsSafe entries msg m safe)
  ]

  resized-IsChosen :
      (w : ℕ) (fs : List (FormField ui))
      → All (IsChosen ui) fs
      → All
          (IsChosen ui)
          (map (λ (f : FormField ui). record f { input = ui.input_set_width w f.input }) fs)
  resized-IsChosen w [] hs = tt
  resized-IsChosen w (f ∷ fs) (h, hs) = (h, resized-IsChosen w fs hs)

  is_empty-resized :
      (f : FormField ui → FormField ui) (fs : List (FormField ui))
      → is_empty (map f fs) ≡ is_empty fs
  is_empty-resized f [] = refl
  is_empty-resized f (x ∷ fs) = refl

  pub apply_size-IsSafe :
      (entries : List HistoryEntry) (m : Model ui)
      → IsSafe ui (frame ui m)
      → IsSafe ui (frame ui (apply_size ui codec texts entries m))
  unfolding apply_size sync_viewport sync_history_viewport
  apply_size-IsSafe entries m safe =
      let w = (column_widths m.width).1 - 6 in
      let resize : FormField ui → FormField ui =
        λ f. record f { input = ui.input_set_width w f.input } in
      record {
        chosen = resized-IsChosen w m.fields safe.chosen;
        field =
            subst2_safe (is_empty-resized resize m.fields) (length-map resize m.fields) safe.field;
        target =
            subst (λ n. (is_picker m.focus ≡ false) ⊎ (m.picker_target < n))
              (sym (length-map resize m.fields)) safe.target;
      }
