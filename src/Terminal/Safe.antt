-- ===== src/Terminal/Safe.antt =====
-- What keeps the terminal program from a panic: its indices are in range.
use tuti_server.Base.{
  ℕ, zero, suc, ◌<◌, ◌≡◌, refl, sym, subst, ◌⊎◌, inl, inr, true, false, List, [], ◌∷◌, map, Option,
  none, some, length, get_elem?, All, All-get_elem?, arith, is_empty, String, Bool-cases, ◌==◌,
}
use tuti_server.Terminal.Commands.{
  ParamKind, ParamSpec, CommandSpec, command_catalog, no_command, param_text, param_file,
  param_choice,
}
use tuti_server.Terminal.Widgets.{Widgets}
use tuti_server.Terminal.Model.{
  Model, Focus, FormField, is_choice, value, update_at, new_form_field, focus_input, fields_for,
  selected_command, or_no_command,
}
use tuti_server.Terminal.Run.{field_value}
use tuti_server.Terminal.Update.{Next, is_picker}

module _ {ℓ κ} {A : Type ℓ} (P : A → Type κ) where
  pub All-update_at :
      (i : ℕ) (f : A → A) (xs : List A)
      → ((x : A) → P x → P (f x))
      → All P xs
      → All P (update_at i f xs)
  All-update_at i f [] keeps ps = tt
  All-update_at zero f (x ∷ xs) keeps (p, ps) = (keeps x p, ps)
  All-update_at (suc i) f (x ∷ xs) keeps (p, ps) = (p, All-update_at i f xs keeps ps)

pub length-update_at {ℓ} :
    {A : Type ℓ} (i : ℕ) (f : A → A) (xs : List A) → length (update_at i f xs) ≡ length xs
length-update_at i f [] = refl
length-update_at zero f (x ∷ xs) = refl
length-update_at (suc i) f (x ∷ xs) = omega (arith, length-update_at i f xs)

pub in_range {ℓ} :
    {A : Type ℓ} (xs : List A) (i : ℕ) → i < length xs → (x : A) × (get_elem? xs i ≡ some x)
in_range [] i h = absurd (omega arith)
in_range (x ∷ xs) zero h = (x, refl)
in_range (x ∷ xs) (suc i) h = in_range xs i (omega arith)

-- A parameter that is a choice has something to choose from.
pub HasChoices : ParamSpec → Type 0
HasChoices p = (is_choice p.kind ≡ false) ⊎ (0 < length p.choices)

pub catalog_choices : All (λ c. All HasChoices c.params) command_catalog
unfolding command_catalog HasChoices
catalog_choices = ground arith

kind_cases : (k : ParamKind) → (k ≡ param_choice) ⊎ (k ≡ param_text) ⊎ (k ≡ param_file)
kind_cases param_choice = inl refl
kind_cases param_text = inr (inl refl)
kind_cases param_file = inr (inr refl)

nth_choice :
    (cs : List String) (i : ℕ)
    → i < length cs
    → (v : String) × ((elim cs [ [] ↦ some "" | c ∷ cs ↦ get_elem? (c ∷ cs) i ]) ≡ some v)
nth_choice [] i h = absurd (omega arith)
nth_choice (c ∷ cs) i h = in_range (c ∷ cs) i h

or_no_command-cases :
    (o : Option CommandSpec) → (or_no_command o ≡ no_command) ⊎ (o ≡ some (or_no_command o))
or_no_command-cases none = inl refl
or_no_command-cases (some c) = inr refl

module _ (ui : Widgets) where
  abbrev pub IsChosen : FormField ui → Type 0
  IsChosen f = (is_choice f.spec.kind ≡ false) ⊎ (f.choice_idx < length f.spec.choices)

  -- The part of the model that its indices are about.
  pub record Frame : Type 0 where
    pub fields : List (FormField ui)
    pub field_i : ℕ
    pub picker_target : ℕ
    pub focus : Focus

  abbrev pub frame : Model ui → Frame
  frame m = record {
    fields = m.fields;
    field_i = m.field_i;
    picker_target = m.picker_target;
    focus = m.focus;
  }

  -- The choice of a field is one of its choices, the field index names a field if there are any, and the
  -- field that the file picker is open for is one of them.
  pub record IsSafe (m : Frame) : Type 0 where
    pub chosen : All IsChosen m.fields
    pub field : (is_empty m.fields ≡ true) ⊎ (m.field_i < length m.fields)
    pub target : (is_picker m.focus ≡ false) ⊎ (m.picker_target < length m.fields)

  -- A handler that does not panic, and the model it leaves.
  abbrev pub Goes : Next ui → Type 0
  Goes none = ⊥
  Goes (some (m, _)) = IsSafe (frame m)

  -- What the list of bubbles promises: the selected item is one of the items that it was made of.
  pub record IsMenu : Type 0 where
    pub selected_item :
        (menu : ui.Menu) (c : CommandSpec)
        → ui.menu_selected_item menu ≡ some c
        → (i : ℕ) × (get_elem? command_catalog i ≡ some c)

  value-IsChosen : (f : FormField ui) → IsChosen f → (v : String) × (value ui f ≡ some v)
  unfolding value
  value-IsChosen f h = elim (kind_cases f.spec.kind) [
    | inl e ↦ rw e (nth_choice f.spec.choices f.choice_idx (ground (arith, e)))
    | inr (inl e) ↦ rw e (ui.input_value f.input, refl)
    | inr (inr e) ↦ rw e (ui.input_value f.input, refl)
  ]

  pub field_value-IsChosen :
      (name : String) (fs : List (FormField ui))
      → All IsChosen fs
      → (v : String) × (field_value ui name fs ≡ some v)
  unfolding field_value
  field_value-IsChosen name [] hs = ("", refl)
  field_value-IsChosen name (f ∷ fs) (h, hs) = elim (Bool-cases (f.spec.name == name)) [
    | inl e ↦ rw e (value-IsChosen f h)
    | inr e ↦ rw e (field_value-IsChosen name fs hs)
  ]

  new_form_field-IsChosen : (p : ParamSpec) → HasChoices p → IsChosen (new_form_field ui p)
  unfolding new_form_field HasChoices
  new_form_field-IsChosen p h = h

  new_form_fields-IsChosen :
      (ps : List ParamSpec) → All HasChoices ps → All IsChosen (map (new_form_field ui) ps)
  new_form_fields-IsChosen [] hs = tt
  new_form_fields-IsChosen (p ∷ ps) (h, hs) =
      (new_form_field-IsChosen p h, new_form_fields-IsChosen ps hs)

  pub focus_input-IsChosen : (f : FormField ui) → IsChosen f → IsChosen (focus_input ui f)
  unfolding focus_input
  focus_input-IsChosen f h = elim (Bool-cases (is_choice f.spec.kind)) [
    | inl e ↦ rw e h
    | inr e ↦ rw e (inl e)
  ]

  pub fields_for-IsChosen :
      (c : CommandSpec) → All HasChoices c.params → All IsChosen (fields_for ui c)
  unfolding fields_for
  fields_for-IsChosen c hs =
      All-update_at IsChosen 0 (focus_input ui) (map (new_form_field ui) c.params)
        focus_input-IsChosen (new_form_fields-IsChosen c.params hs)

  selected-cases :
      (m : Model ui)
      → (selected_command ui m ≡ no_command)
        ⊎ (ui.menu_selected_item m.menu ≡ some (selected_command ui m))
  unfolding selected_command
  selected-cases m = or_no_command-cases (ui.menu_selected_item m.menu)

  pub selected-HasChoices : IsMenu → (m : Model ui) → All HasChoices (selected_command ui m).params
  selected-HasChoices menu m = elim (selected-cases m) [
    | inl e ↦ subst (λ c. All HasChoices c.params) (sym e) tt
    | inr e ↦
        let (i, at_i) = menu.selected_item m.menu (selected_command ui m) e in
        All-get_elem? _ command_catalog i (selected_command ui m) catalog_choices at_i
  ]
