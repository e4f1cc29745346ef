-- ===== src/Terminal/Update/Quiet.antt =====
-- How many calls a handler starts, against whether the model is busy after it.
use tuti_server.Base.{
  ℕ, ◌+◌, ◌≡◌, refl, subst, not, Bool, true, false, List, [], ◌∷◌, Option, none, some, Option-cases,
  inl, inr, ◌⊎◌, ◌==◌, if_case,
}
use tuti_server.Client.{Codec, HistoryEntry}
use tuti_server.Terminal.Widgets.{Widgets, Texts}
use tuti_server.Terminal.Model.{Model}
use tuti_server.Terminal.Run.{ResultMsg, Started, Call, call, at_once, run}
use tuti_server.Terminal.Run.User.{IsUsers, run-IsUsers}
use tuti_server.Terminal.Exec.Kinds.{is_check}
use tuti_server.Terminal.Update.{
  Effect, quit, task, start, Next, sync_viewport, sync_history_viewport, append_line, show_error,
  show_result, handle_result, run_now, apply_size,
}

abbrev pub one_if : Bool → ℕ
one_if true = 1
one_if false = 0

module _ (ui : Widgets) where
  abbrev pub starts : List (Effect ui) → ℕ
  starts [] = 0
  starts (start c ∷ rest) = one_if (not (is_check c)) + starts rest
  starts (quit ∷ rest) = starts rest
  starts (task t ∷ rest) = starts rest

  -- A handler starts one call where it leaves the model busy, and none otherwise.
  abbrev pub Flies : Next ui → Type 0
  Flies none = Unit
  Flies (some (m, effects)) = starts effects ≡ one_if m.busy

module _ (ui : Widgets) (codec : Codec) (texts : Texts) where
  pub handle_result-idle :
      (entries : List HistoryEntry) (msg : ResultMsg) (m : Model ui)
      → (handle_result ui codec texts entries msg m).busy ≡ false
  unfolding handle_result show_error show_result append_line sync_viewport sync_history_viewport
  handle_result-idle entries msg m =
      if_case (λ (m' : Model ui). m'.busy ≡ false) (msg.title == "__clear__") (λ _. refl)
        (λ _. elim (Option-cases msg.error) [ inl e ↦ rw e refl | inr (x, e) ↦ rw e refl ])

  started_or_not :
      (o : Option Started)
      → (o ≡ none)
        ⊎ ((c : Call) × (o ≡ some (call c)))
        ⊎ ((msg : ResultMsg) × (o ≡ some (at_once msg)))
  started_or_not none = inl refl
  started_or_not (some (call c)) = inr (inl (c, refl))
  started_or_not (some (at_once msg)) = inr (inr (msg, refl))

  pub run_now-Flies :
      (entries : List HistoryEntry) (m : Model ui) → Flies ui (run_now ui codec texts entries m)
  unfolding run_now
  run_now-Flies entries m = elim (started_or_not (run ui m)) [
    | inl e ↦ rw (e, Flies, run_now) tt
    | inr (inl (c, e)) ↦ rw (e, Flies, run_now) (rw (subst IsUsers e (run-IsUsers ui m)) refl)
    | inr (inr (msg, e)) ↦ rw (e, Flies, run_now) (rw (handle_result-idle entries msg m) refl)
  ]

  pub apply_size-busy :
      (entries : List HistoryEntry) (m : Model ui)
      → (apply_size ui codec texts entries m).busy ≡ m.busy
  unfolding apply_size sync_viewport sync_history_viewport
  apply_size-busy entries m = refl
