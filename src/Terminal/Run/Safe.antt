-- ===== src/Terminal/Run/Safe.antt =====
-- Running a command does not panic where every choice is one of its choices.
use tuti_server.Base.{String, ◌≡◌, refl, ◌⊎◌, inl, inr, Option, none, some, All, ◌==◌, if_case}
use tuti_server.Terminal.Widgets.{Widgets}
use tuti_server.Terminal.Model.{Model, selected_command}
use tuti_server.Terminal.Run.{
  Started, Call, call, at_once, ResultMsg, with_field, run_lesson, run_get_lesson, run_command, run,
}
use tuti_server.Terminal.Safe.{IsChosen, field_value-IsChosen}

abbrev IsSome : Option Started → Type 0
IsSome none = ⊥
IsSome (some _) = Unit

started_cases :
    (o : Option Started)
    → IsSome o
    → ((c : Call) × (o ≡ some (call c))) ⊎ ((msg : ResultMsg) × (o ≡ some (at_once msg)))
started_cases none h = absurd h
started_cases (some (call c)) h = inl (c, refl)
started_cases (some (at_once msg)) h = inr (msg, refl)

module _ (ui : Widgets) (m : Model ui) (chosen : All (IsChosen ui) m.fields) where
  with_field-IsSome : (name : String) (f : String → Started) → IsSome (with_field ui name m f)
  unfolding with_field
  with_field-IsSome name f =
      let (v, e) = field_value-IsChosen ui name m.fields chosen in rw (e, IsSome, with_field) tt

  run_lesson-IsSome : (id : String) → IsSome (run_lesson ui m id)
  unfolding run_lesson
  run_lesson-IsSome id = if_case IsSome (id == "") (λ _. tt) (λ _. with_field-IsSome "Language" _)

  run_get_lesson-IsSome : IsSome (run_get_lesson ui m)
  unfolding run_get_lesson
  run_get_lesson-IsSome =
      let (v, e) = field_value-IsChosen ui "Lesson ID" m.fields chosen in
      rw (e, IsSome, run_get_lesson) (run_lesson-IsSome v)

  run_command-IsSome : (id : String) → IsSome (run_command ui m id)
  unfolding run_command
  run_command-IsSome id =
      if_case IsSome (id == "clear") (λ _. tt)
        (λ _.
          if_case IsSome (id == "health") (λ _. tt)
            (λ _.
              if_case IsSome (id == "init") (λ _. tt)
                (λ _.
                  if_case IsSome (id == "snap") (λ _. with_field-IsSome "Photo" _)
                    (λ _.
                      if_case IsSome (id == "respond") (λ _. with_field-IsSome "Response" _)
                        (λ _.
                          if_case IsSome (id == "upload") (λ _. with_field-IsSome "Photo" _)
                            (λ _.
                              if_case IsSome (id == "captures") (λ _. tt)
                                (λ _.
                                  if_case IsSome (id == "session") (λ _. tt)
                                    (λ _.
                                      if_case IsSome (id == "analyze")
                                        (λ _. with_field-IsSome "Asset IDs" _)
                                        (λ _.
                                          if_case IsSome (id == "lesson")
                                            (λ _. run_get_lesson-IsSome)
                                            (λ _.
                                              if_case IsSome (id == "devprompt")
                                                (λ _. with_field-IsSome "Prompt" _)
                                                (λ _. tt)))))))))))

  -- What `run` returns is a call, or a message at once.
  pub run-cases :
      ((c : Call) × (run ui m ≡ some (call c)))
      ⊎ ((msg : ResultMsg) × (run ui m ≡ some (at_once msg)))
  unfolding run
  run-cases = started_cases (run ui m) (run_command-IsSome (selected_command ui m).id)
