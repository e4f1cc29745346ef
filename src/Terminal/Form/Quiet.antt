-- ===== src/Terminal/Form/Quiet.antt =====
-- The keys of the form and of the picker start nothing but the command of the form.
use tuti_server.Base.{
  ◌≡◌, refl, Bool, false, List, [], ◌∷◌, Option, none, some, get_elem?, is_empty, Option-cases, inl,
  inr, if_case, ◌==◌, ◌||◌, ◌&&◌, eqb, ◌+◌, ◌-◌, length, String, ℕ,
}
use tuti_server.Client.{Codec, HistoryEntry}
use tuti_server.Terminal.Widgets.{Widgets, Texts}
use tuti_server.Terminal.Model.{
  Model, FormField, focus_form, focus_picker, focus_input, is_choice, is_file,
}
use tuti_server.Terminal.Update.{task}
use tuti_server.Terminal.Update.Quiet.{Flies, run_now-Flies}
use tuti_server.Terminal.Form.{
  at_field, blur_input, blur_field, focus_field, then_idle, next_choice, leave_form, next_field,
  previous_field, open_picker, choose, type_in, form_key, handle_form_key, picked,
  handle_picker_key,
}

module _ (ui : Widgets) (codec : Codec) (texts : Texts) where
  -- A model that is not busy, if there is one.
  abbrev Idle : Option (Model ui) → Type 0
  Idle none = Unit
  Idle (some m) = m.busy ≡ false

  at_field-Idle :
      (i : ℕ) (f : FormField ui → FormField ui) (m : Model ui)
      → m.busy ≡ false
      → Idle (at_field ui codec texts i f m)
  unfolding at_field
  at_field-Idle i f m idle = elim (Option-cases (get_elem? m.fields i)) [
    | inl e ↦ rw (e, Idle, at_field) tt
    | inr (x, e) ↦ rw (e, Idle, at_field) idle
  ]

  -- What follows on a model that is not busy.
  continued :
      (o : Option (Model ui)) (g : Model ui → Option (Model ui))
      → Idle o
      → ((m : Model ui) → m.busy ≡ false → Idle (g m))
      → Idle (elim o [ none ↦ none | some m ↦ g m ])
  continued none g h next = tt
  continued (some m) g h next = next m h

  then_idle-Flies : (o : Option (Model ui)) → Idle o → Flies ui (then_idle ui codec texts o)
  unfolding then_idle
  then_idle-Flies none h = tt
  then_idle-Flies (some m) h = rw h refl

  blur_field-Idle : (m : Model ui) → m.busy ≡ false → Idle (blur_field ui codec texts m)
  unfolding blur_field
  blur_field-Idle m idle = at_field-Idle m.field_i (blur_input ui codec texts) m idle

  focus_field-Idle : (m : Model ui) → m.busy ≡ false → Idle (focus_field ui codec texts m)
  unfolding focus_field
  focus_field-Idle m idle = at_field-Idle m.field_i (focus_input ui) m idle

  leave_form-Idle : (m : Model ui) → m.busy ≡ false → Idle (leave_form ui codec texts m)
  unfolding leave_form
  leave_form-Idle m idle = continued _ _ (blur_field-Idle m idle) (λ m h. h)

  next_field-Idle : (m : Model ui) → m.busy ≡ false → Idle (next_field ui codec texts m)
  unfolding next_field
  next_field-Idle m idle = continued _ _ (blur_field-Idle m idle) (λ m h.
      if_case Idle (eqb (m.field_i + 1) (length m.fields)) (λ _. h)
        (λ _. focus_field-Idle (record m { field_i = m.field_i + 1 }) h))

  previous_field-Idle : (m : Model ui) → m.busy ≡ false → Idle (previous_field ui codec texts m)
  unfolding previous_field
  previous_field-Idle m idle = continued _ _ (blur_field-Idle m idle) (λ m h.
      if_case Idle (eqb m.field_i 0) (λ _. h)
        (λ _. focus_field-Idle (record m { field_i = m.field_i - 1 }) h))

  picked-Idle :
      (path : String) (m : Model ui) → m.busy ≡ false → Idle (picked ui codec texts path m)
  unfolding picked
  picked-Idle path m idle =
      continued _ _ (at_field-Idle m.picker_target _ m idle)
        (λ m h. focus_field-Idle (record m { focus = focus_form; field_i = m.picker_target }) h)

  opened-Flies :
      (o : Option (Model ui))
      → Idle o
      → Flies ui (elim o [
        | none ↦ none
        | some m ↦ some (
          record m { picker_target = m.field_i; focus = focus_picker },
          task (ui.picker_init m.picker) ∷ [],
        )
      ])
  opened-Flies none h = tt
  opened-Flies (some m) h = rw h refl

  open_picker-Flies : (m : Model ui) → m.busy ≡ false → Flies ui (open_picker ui codec texts m)
  unfolding open_picker
  open_picker-Flies m idle = opened-Flies (blur_field ui codec texts m) (blur_field-Idle m idle)

  choose-Flies :
      (left : Bool) (f : FormField ui) (m : Model ui)
      → m.busy ≡ false
      → Flies ui (choose ui codec texts left f m)
  unfolding choose
  choose-Flies left f m idle = elim (Option-cases (next_choice ui codec texts left f)) [
    | inl e ↦ rw (e, Flies, choose) tt
    | inr (x, e) ↦ rw (e, Flies, choose) (rw idle refl)
  ]

  form_key-Flies :
      (entries : List HistoryEntry) (k : ui.Key) (f : FormField ui) (m : Model ui)
      → m.busy ≡ false
      → Flies ui (form_key ui codec texts entries k f m)
  unfolding form_key type_in
  form_key-Flies entries k f m idle =
      let text = ui.key_text k in
      if_case (Flies ui) (text == "esc") (λ _. then_idle-Flies _ (leave_form-Idle m idle))
        (λ _.
          if_case (Flies ui) (text == "tab") (λ _. then_idle-Flies _ (next_field-Idle m idle))
            (λ _.
              if_case (Flies ui) (text == "shift+tab")
                (λ _. then_idle-Flies _ (previous_field-Idle m idle))
                (λ _.
                  if_case (Flies ui) (text == "ctrl+f")
                    (λ _.
                      if_case (Flies ui) (is_file f.spec.kind) (λ _. open_picker-Flies m idle)
                        (λ _. rw idle refl))
                    (λ _.
                      if_case (Flies ui) ((text == "ctrl+s") || (text == "enter"))
                        (λ _. run_now-Flies ui codec texts entries m)
                        (λ _.
                          if_case (Flies ui)
                            (((text == "left") || (text == "right")) && is_choice f.spec.kind)
                            (λ _. choose-Flies (text == "left") f m idle)
                            (λ _.
                              if_case (Flies ui) (is_choice f.spec.kind) (λ _. rw idle refl)
                                (λ _. rw idle refl)))))))

  pub handle_form_key-Flies :
      (entries : List HistoryEntry) (k : ui.Key) (m : Model ui)
      → m.busy ≡ false
      → Flies ui (handle_form_key ui codec texts entries k m)
  unfolding handle_form_key
  handle_form_key-Flies entries k m idle =
      if_case (Flies ui) (is_empty m.fields) (λ _. rw idle refl)
        (λ _. elim (Option-cases (get_elem? m.fields m.field_i)) [
          | inl e ↦ rw (e, Flies) tt
          | inr (f, e) ↦ rw (e, Flies) (form_key-Flies entries k f m idle)
        ])

  pub handle_picker_key-Flies :
      (k : ui.Key) (m : Model ui) → m.busy ≡ false → Flies ui (handle_picker_key ui codec texts k m)
  unfolding handle_picker_key
  handle_picker_key-Flies k m idle =
      let picker = (ui.picker_key k m.picker).0 in
      if_case (Flies ui) (ui.key_text k == "esc")
        (λ _. then_idle-Flies _ (focus_field-Idle (record m { focus = focus_form }) idle))
        (λ _. elim (Option-cases (ui.picker_did_select_file k picker)) [
          | inl e ↦ rw (e, Flies) (rw idle refl)
          | inr (path, e) ↦
              rw (e, Flies)
                (then_idle-Flies _ (picked-Idle path (record m { picker = picker }) idle))
        ])
