-- ===== src/Terminal/Form/Safe.antt =====
-- The keys of the form and of the file picker do not panic.
use tuti_server.Base.{
  ℕ, ◌+◌, ◌-◌, ◌%◌, ◌<◌, ◌≡◌, refl, sym, subst, ◌⊎◌, inl, inr, Bool, true, false, List, [], ◌∷◌,
  some, length, get_elem?, arith, is_empty, Option-cases, Bool-cases, if_case, ne_of_eqb, eqb_pos,
  All-get_elem?, if◌then◌else◌, eqb, ◌==◌, ◌||◌, ◌&&◌, String,
}
use tuti_server.Client.{Codec, HistoryEntry}
use tuti_server.Terminal.Widgets.{Widgets, Texts}
use tuti_server.Terminal.Model.{
  Model, Focus, FormField, is_choice, is_file, update_at, focus_input, focus_menu, focus_form,
  focus_picker,
}
use tuti_server.Terminal.Update.{is_picker, run_now}
use tuti_server.Terminal.Form.{
  at_field, blur_input, blur_field, focus_field, then_idle, next_choice, leave_form, next_field,
  previous_field, open_picker, choose, type_in, form_key, handle_form_key, picked,
  handle_picker_key,
}
use tuti_server.Terminal.Safe.{
  IsChosen, frame, IsSafe, Goes, in_range, All-update_at, length-update_at, focus_input-IsChosen,
}

and_right : (a b : Bool) → (a && b) ≡ true → b ≡ true
and_right true b h = h
and_right false b h = absurd (cc)

-- A field index that is in range; the proofs below have one wherever a key needs it.
nonempty {ℓ} :
    {A : Type ℓ} (xs : List A) (i : ℕ)
    → (is_empty xs ≡ true) ⊎ (i < length xs)
    → is_empty xs ≡ false
    → i < length xs
nonempty [] i h e = absurd (cc)
nonempty (x ∷ xs) i (inl h) e = absurd (cc)
nonempty (x ∷ xs) i (inr h) e = h

not_empty {ℓ} : {A : Type ℓ} (xs : List A) (i : ℕ) → i < length xs → is_empty xs ≡ false
not_empty [] i h = absurd (omega arith)
not_empty (x ∷ xs) i h = refl

in_target {ℓ} : (b : Bool) (T : Type ℓ) → (b ≡ false) ⊎ T → b ≡ true → T
in_target b T (inl h) e = absurd (cc)
in_target b T (inr t) e = t

module _ (ui : Widgets) where
  -- A change of one field that keeps its choice in range, and where it moves the focus to.
  updated-IsSafe :
      (i j t : ℕ) (f : FormField ui → FormField ui) (g : Focus) (m : Model ui)
      → ((x : FormField ui) → IsChosen ui x → IsChosen ui (f x))
      → j < length m.fields
      → (is_picker g ≡ false) ⊎ (t < length m.fields)
      → IsSafe ui (frame ui m)
      → IsSafe ui
          (record { fields = update_at i f m.fields; field_i = j; picker_target = t; focus = g })
  updated-IsSafe i j t f g m keeps small in_picker safe = record {
    chosen = All-update_at (IsChosen ui) i f m.fields keeps safe.chosen;
    field = inr (omega (arith, length-update_at i f m.fields));
    target =
        subst (λ n. (is_picker g ≡ false) ⊎ (t < n)) (sym (length-update_at i f m.fields))
          in_picker;
  }

  same_kind-IsChosen :
      (f : FormField ui) (input : ui.Input)
      → IsChosen ui f
      → IsChosen ui (record f { input = input })
  same_kind-IsChosen f input h = h

module _ (ui : Widgets) (codec : Codec) (texts : Texts) where
  at_field_in_range :
      (i : ℕ) (f : FormField ui → FormField ui) (m : Model ui)
      → i < length m.fields
      → at_field ui codec texts i f m ≡ some (record m { fields = update_at i f m.fields })
  unfolding at_field
  at_field_in_range i f m small = let (x, e) = in_range m.fields i small in rw (e, at_field) refl

  blur_input-IsChosen :
      (f : FormField ui) → IsChosen ui f → IsChosen ui (blur_input ui codec texts f)
  unfolding blur_input
  blur_input-IsChosen f h = elim (Bool-cases (is_choice f.spec.kind)) [
    | inl e ↦ rw e h
    | inr e ↦ rw e (inl e)
  ]

  blurs_in_range :
      (m : Model ui)
      → m.field_i < length m.fields
      → blur_field ui codec texts m
        ≡ some (record m { fields = update_at m.field_i (blur_input ui codec texts) m.fields })
  unfolding blur_field
  blurs_in_range m small = at_field_in_range m.field_i (blur_input ui codec texts) m small

  focuses_in_range :
      (m : Model ui)
      → m.field_i < length m.fields
      → focus_field ui codec texts m
        ≡ some (record m { fields = update_at m.field_i (focus_input ui) m.fields })
  unfolding focus_field
  focuses_in_range m small = at_field_in_range m.field_i (focus_input ui) m small

  open_picker-Goes :
      (m : Model ui)
      → m.field_i < length m.fields
      → IsSafe ui (frame ui m)
      → Goes ui (open_picker ui codec texts m)
  unfolding open_picker
  open_picker-Goes m small safe =
      rw (blurs_in_range m small, Goes, open_picker)
        (updated-IsSafe ui m.field_i m.field_i m.field_i (blur_input ui codec texts) focus_picker m
          blur_input-IsChosen small (inr small) safe)

  -- A focus on a field that exists, out of the picker.
  focused-Goes :
      (m : Model ui)
      → is_picker m.focus ≡ false
      → m.field_i < length m.fields
      → IsSafe ui (frame ui m)
      → Goes ui (then_idle ui codec texts (focus_field ui codec texts m))
  unfolding then_idle
  focused-Goes m in_form small safe =
      rw (focuses_in_range m small, Goes, then_idle)
        (updated-IsSafe ui m.field_i m.field_i m.picker_target (focus_input ui) m.focus m
          (focus_input-IsChosen ui) small (inl in_form) safe)

  blurred : Model ui → Model ui
  blurred m = record m { fields = update_at m.field_i (blur_input ui codec texts) m.fields }

  -- Leaving a field for the `j`-th.
  move_field-Goes :
      (j : ℕ) (m : Model ui)
      → is_picker m.focus ≡ false
      → m.field_i < length m.fields
      → j < length m.fields
      → IsSafe ui (frame ui m)
      → Goes ui (
          then_idle ui codec texts
            (focus_field ui codec texts (record (blurred m) { field_i = j })))
  unfolding blurred
  move_field-Goes j m in_form small small' safe =
      focused-Goes
        (record m {
          fields = update_at m.field_i (blur_input ui codec texts) m.fields;
          field_i = j;
        })
        in_form (omega (arith, length-update_at m.field_i (blur_input ui codec texts) m.fields))
        (updated-IsSafe ui m.field_i j m.picker_target (blur_input ui codec texts) m.focus m
          blur_input-IsChosen small' (inl in_form) safe)

  left_form :
      (m : Model ui)
      → m.field_i < length m.fields
      → IsSafe ui (frame ui m)
      → Goes ui (then_idle ui codec texts (some (record (blurred m) { focus = focus_menu })))
  unfolding blurred then_idle
  left_form m small safe =
      updated-IsSafe ui m.field_i m.field_i m.picker_target (blur_input ui codec texts) focus_menu m
        blur_input-IsChosen small (inl refl) safe

  leave_form-Goes :
      (m : Model ui)
      → m.field_i < length m.fields
      → IsSafe ui (frame ui m)
      → Goes ui (then_idle ui codec texts (leave_form ui codec texts m))
  unfolding leave_form blurred
  leave_form-Goes m small safe =
      rw (blurs_in_range m small, Goes, leave_form) (left_form m small safe)

  one_more :
      (m : Model ui)
      → eqb (m.field_i + 1) (length (blurred m).fields) ≡ false
      → m.field_i < length m.fields
      → m.field_i + 1 < length m.fields
  unfolding blurred
  one_more m at_end small = omega (
    arith,
    ne_of_eqb (m.field_i + 1) (length (blurred m).fields) at_end,
    length-update_at m.field_i (blur_input ui codec texts) m.fields,
  )

  next_field-Goes :
      (m : Model ui)
      → is_picker m.focus ≡ false
      → m.field_i < length m.fields
      → IsSafe ui (frame ui m)
      → Goes ui (then_idle ui codec texts (next_field ui codec texts m))
  unfolding next_field blurred
  next_field-Goes m in_form small safe =
      rw (blurs_in_range m small, Goes, next_field)
        (if_case (λ o. Goes ui (then_idle ui codec texts o))
          (eqb (m.field_i + 1) (length (blurred m).fields)) (λ at_end. left_form m small safe)
          (λ at_end.
            move_field-Goes (m.field_i + 1) m in_form small (one_more m at_end small) safe))

  previous_field-Goes :
      (m : Model ui)
      → is_picker m.focus ≡ false
      → m.field_i < length m.fields
      → IsSafe ui (frame ui m)
      → Goes ui (then_idle ui codec texts (previous_field ui codec texts m))
  unfolding previous_field blurred
  previous_field-Goes m in_form small safe =
      rw (blurs_in_range m small, Goes, previous_field)
        (if_case (λ o. Goes ui (then_idle ui codec texts o)) (eqb m.field_i 0)
          (λ at_start. left_form m small safe)
          (λ at_start. move_field-Goes (m.field_i - 1) m in_form small (omega arith) safe))

  next_choice-IsChosen :
      (left : Bool) (f : FormField ui)
      → 0 < length f.spec.choices
      → (f' : FormField ui) × (next_choice ui codec texts left f ≡ some f') × IsChosen ui f'
  unfolding next_choice
  next_choice-IsChosen left f some_choice =
      let n = length f.spec.choices in
      let i = if left then (f.choice_idx + n - 1) % n else (f.choice_idx + 1) % n in
      (
        record f { choice_idx = i },
        rw (eqb_pos n some_choice, next_choice) refl,
        inr (if_case (λ k. k < n) left (λ _. omega arith) (λ _. omega arith)),
      )

  choose-Goes :
      (left : Bool) (f : FormField ui) (m : Model ui)
      → get_elem? m.fields m.field_i ≡ some f
      → is_choice f.spec.kind ≡ true
      → is_picker m.focus ≡ false
      → m.field_i < length m.fields
      → IsSafe ui (frame ui m)
      → Goes ui (choose ui codec texts left f m)
  unfolding choose
  choose-Goes left f m at_i choice in_form small safe =
      let chosen : IsChosen ui f =
        All-get_elem? (IsChosen ui) m.fields m.field_i f safe.chosen at_i in
      let (f', e, h) = next_choice-IsChosen left f (ground arith) in
      rw (e, Goes, choose)
        (updated-IsSafe ui m.field_i m.field_i m.picker_target (λ _. f') m.focus m (λ _ _. h) small
          (inl in_form) safe)

  type_in-Goes :
      (k : ui.Key) (f : FormField ui) (m : Model ui)
      → is_picker m.focus ≡ false
      → m.field_i < length m.fields
      → IsSafe ui (frame ui m)
      → Goes ui (type_in ui codec texts k f m)
  unfolding type_in
  type_in-Goes k f m in_form small safe =
      updated-IsSafe ui m.field_i m.field_i m.picker_target
        (λ g. record g { input = (ui.input_update k f.input).0 }) m.focus m
        (λ g h. same_kind-IsChosen ui g (ui.input_update k f.input).0 h) small (inl in_form) safe

  form_key-Goes :
      (entries : List HistoryEntry) (k : ui.Key) (f : FormField ui) (m : Model ui)
      → get_elem? m.fields m.field_i ≡ some f
      → is_picker m.focus ≡ false
      → m.field_i < length m.fields
      → IsSafe ui (frame ui m)
      → Goes ui (run_now ui codec texts entries m)
      → Goes ui (form_key ui codec texts entries k f m)
  unfolding form_key
  form_key-Goes entries k f m at_i in_form small safe runs =
      let text = ui.key_text k in
      if_case (Goes ui) (text == "esc") (λ _. leave_form-Goes m small safe)
        (λ _.
          if_case (Goes ui) (text == "tab") (λ _. next_field-Goes m in_form small safe)
            (λ _.
              if_case (Goes ui) (text == "shift+tab")
                (λ _. previous_field-Goes m in_form small safe)
                (λ _.
                  if_case (Goes ui) (text == "ctrl+f")
                    (λ _.
                      if_case (Goes ui) (is_file f.spec.kind) (λ _. open_picker-Goes m small safe)
                        (λ _. safe))
                    (λ _.
                      if_case (Goes ui) ((text == "ctrl+s") || (text == "enter")) (λ _. runs)
                        (λ _.
                          if_case (Goes ui)
                            (((text == "left") || (text == "right")) && is_choice f.spec.kind)
                            (λ h.
                              choose-Goes (text == "left") f m at_i (and_right _ _ h) in_form small
                                safe)
                            (λ _.
                              if_case (Goes ui) (is_choice f.spec.kind) (λ _. safe)
                                (λ _. type_in-Goes k f m in_form small safe)))))))

  -- A key in the form, where running the command does not panic.
  pub handle_form_key-Goes :
      (entries : List HistoryEntry) (k : ui.Key) (m : Model ui)
      → is_picker m.focus ≡ false
      → IsSafe ui (frame ui m)
      → Goes ui (run_now ui codec texts entries m)
      → Goes ui (handle_form_key ui codec texts entries k m)
  unfolding handle_form_key
  handle_form_key-Goes entries k m in_form safe runs =
      if_case (Goes ui) (is_empty m.fields)
        (λ none_there. record { chosen = safe.chosen; field = safe.field; target = inl refl })
        (λ some_there.
          let small = nonempty m.fields m.field_i safe.field some_there in
          let (f, e) = in_range m.fields m.field_i small in
          rw (e, Goes, handle_form_key) (form_key-Goes entries k f m e in_form small safe runs))

  -- A key in the picker.
  picked-Goes :
      (path : String) (m : Model ui)
      → m.picker_target < length m.fields
      → IsSafe ui (frame ui m)
      → Goes ui (then_idle ui codec texts (picked ui codec texts path m))
  unfolding picked
  picked-Goes path m small safe =
      rw
        (
          at_field_in_range m.picker_target
              (λ f. record f { input = ui.input_set_value path f.input }) m small,
          Goes,
          picked,
        )
        (focused-Goes
          (record m {
            fields =
                update_at m.picker_target
                  (λ f. record f { input = ui.input_set_value path f.input }) m.fields;
            field_i = m.picker_target;
            focus = focus_form;
          })
          refl
          (omega (
            arith,
            length-update_at m.picker_target
                (λ (f : FormField ui). record f { input = ui.input_set_value path f.input })
                m.fields,
          ))
          (updated-IsSafe ui m.picker_target m.picker_target m.picker_target
            (λ f. record f { input = ui.input_set_value path f.input }) focus_form m
            (λ f h. same_kind-IsChosen ui f (ui.input_set_value path f.input) h) small (inl refl)
            safe))

  pub handle_picker_key-Goes :
      (k : ui.Key) (m : Model ui)
      → is_picker m.focus ≡ true
      → IsSafe ui (frame ui m)
      → Goes ui (handle_picker_key ui codec texts k m)
  unfolding handle_picker_key
  handle_picker_key-Goes k m in_picker safe =
      let small = in_target (is_picker m.focus) _ safe.target in_picker in
      let picker = (ui.picker_key k m.picker).0 in
      if_case (Goes ui) (ui.key_text k == "esc")
        (λ _.
          focused-Goes (record m { focus = focus_form }) refl
            (nonempty m.fields m.field_i safe.field (not_empty m.fields m.picker_target small))
            (record { chosen = safe.chosen; field = safe.field; target = inl refl }))
        (λ _. elim (Option-cases (ui.picker_did_select_file k picker)) [
          | inl e ↦ rw (e, Goes) safe
          | inr (path, e) ↦
              rw (e, Goes) (picked-Goes path (record m { picker = picker }) small safe)
        ])
