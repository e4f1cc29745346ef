-- ===== src/Terminal/Run/User.antt =====
-- `run` never starts the health check of the start.
use tuti_server.Base.{
  String, ◌≡◌, refl, false, Option, none, some, Option-cases, inl, inr, ◌==◌, if_case, is_empty,
}
use tuti_server.Terminal.Widgets.{Widgets}
use tuti_server.Terminal.Model.{Model, selected_command}
use tuti_server.Terminal.Run.{
  Started, call, at_once, field_value, with_field, refuse, no_snap_session, run_lesson,
  run_get_lesson, run_command, run, run_snap, run_respond, run_upload, run_analyze, run_dev_prompt,
  asset_ids,
}
use tuti_server.Terminal.Exec.Kinds.{is_check}

abbrev IsUser : Started → Type 0
IsUser (call c) = is_check c ≡ false
IsUser (at_once msg) = Unit

abbrev pub IsUsers : Option Started → Type 0
IsUsers none = Unit
IsUsers (some st) = IsUser st

module _ (ui : Widgets) (m : Model ui) where
  with_field-IsUsers :
      (name : String) (f : String → Started)
      → ((v : String) → IsUser (f v))
      → IsUsers (with_field ui name m f)
  unfolding with_field
  with_field-IsUsers name f each = elim (Option-cases (field_value ui name m.fields)) [
    | inl e ↦ rw (e, IsUsers, with_field) tt
    | inr (v, e) ↦ rw (e, IsUsers, with_field) (each v)
  ]

  run_lesson-IsUsers : (id : String) → IsUsers (run_lesson ui m id)
  unfolding run_lesson refuse
  run_lesson-IsUsers id =
      if_case IsUsers (id == "") (λ _. tt) (λ _. with_field-IsUsers "Language" _ (λ _. refl))

  run_get_lesson-IsUsers : IsUsers (run_get_lesson ui m)
  unfolding run_get_lesson
  run_get_lesson-IsUsers = elim (Option-cases (field_value ui "Lesson ID" m.fields)) [
    | inl e ↦ rw (e, IsUsers, run_get_lesson) tt
    | inr (v, e) ↦ rw (e, IsUsers, run_get_lesson) (run_lesson-IsUsers v)
  ]

  snap-IsUser : (path : String) → IsUser (run_snap ui m path)
  unfolding run_snap refuse no_snap_session
  snap-IsUser path =
      if_case IsUser (path == "") (λ _. tt)
        (λ _. if_case IsUser (m.snap_session_id == "") (λ _. tt) (λ _. refl))

  respond-IsUser : (r : String) → IsUser (run_respond ui m r)
  unfolding run_respond refuse no_snap_session
  respond-IsUser r = if_case IsUser (m.snap_session_id == "") (λ _. tt) (λ _. refl)

  analyze-IsUser : (field : String) → IsUser (run_analyze ui m field)
  unfolding run_analyze refuse
  analyze-IsUser field =
      if_case IsUser (is_empty (asset_ids field m.last_capture_id)) (λ _. tt)
        (λ _. if_case IsUser (m.solve_session_id == "") (λ _. tt) (λ _. refl))

  upload-IsUser : (path : String) → IsUser (run_upload path)
  unfolding run_upload refuse
  upload-IsUser path = if_case IsUser (path == "") (λ _. tt) (λ _. refl)

  prompt-IsUser : (prompt : String) → IsUser (run_dev_prompt prompt)
  unfolding run_dev_prompt refuse
  prompt-IsUser prompt = if_case IsUser (prompt == "") (λ _. tt) (λ _. refl)

  run_command-IsUsers : (id : String) → IsUsers (run_command ui m id)
  unfolding run_command
  run_command-IsUsers id =
      if_case IsUsers (id == "clear") (λ _. tt)
        (λ _.
          if_case IsUsers (id == "health") (λ _. refl)
            (λ _.
              if_case IsUsers (id == "init") (λ _. refl)
                (λ _.
                  if_case IsUsers (id == "snap") (λ _. with_field-IsUsers "Photo" _ snap-IsUser)
                    (λ _.
                      if_case IsUsers (id == "respond")
                        (λ _. with_field-IsUsers "Response" _ respond-IsUser)
                        (λ _.
                          if_case IsUsers (id == "upload")
                            (λ _. with_field-IsUsers "Photo" _ upload-IsUser)
                            (λ _.
                              if_case IsUsers (id == "captures") (λ _. refl)
                                (λ _.
                                  if_case IsUsers (id == "session") (λ _. refl)
                                    (λ _.
                                      if_case IsUsers (id == "analyze")
                                        (λ _. with_field-IsUsers "Asset IDs" _ analyze-IsUser)
                                        (λ _.
                                          if_case IsUsers (id == "lesson")
                                            (λ _. run_get_lesson-IsUsers)
                                            (λ _.
                                              if_case IsUsers (id == "devprompt")
                                                (λ _. with_field-IsUsers "Prompt" _ prompt-IsUser)
                                                (λ _. tt)))))))))))

  pub run-IsUsers : IsUsers (run ui m)
  unfolding run
  run-IsUsers = run_command-IsUsers (selected_command ui m).id
