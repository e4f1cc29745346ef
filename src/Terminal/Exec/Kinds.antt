-- ===== src/Terminal/Exec/Kinds.antt =====
-- The health check of the start answers with its own message, every other call with a result.
use tuti_server.Base.{
  ◌≡◌, refl, ap, subst, String, Bool, true, false, ◌++◌, bytes_of, itoa, length, Option, none, some,
  Option-cases, inl, inr,
}
use tuti_server.Errors.{Result, ok, err}
use tuti_server.Client.{Client, Codec, Net, replay}
use tuti_server.Client.Rpc as Rpc
use tuti_server.Client.Rpc.{Responses}
use tuti_server.Terminal.Run.{
  ResultMsg, Call, check_health, replay_entry, call_health, call_init, call_snap, call_respond,
  call_upload, call_captures, call_session, call_analyze, call_lesson, call_dev_prompt, Reply,
  health_result, result_reply, replay_title, shows, summarize_analysis,
}
use tuti_server.Terminal.Widgets.{captures_body, analysis_body, lesson_body, text_body}
use tuti_server.Terminal.Exec.{
  init_message, step_message, upload_message, session_message, lesson_title, replay_message,
  or_failed, then_message, exec,
}

abbrev pub is_check : Call → Bool
is_check check_health = true
is_check _ = false

abbrev pub is_health : Reply → Bool
is_health (health_result _) = true
is_health (result_reply _) = false

-- A reply, if there is one, of the kind that belongs to a check or to another call.
abbrev OfKind : Bool → Option Reply → Type 0
OfKind b none = Unit
OfKind b (some r) = is_health r ≡ b

or_failed-OfKind :
    {A : Type 0} (title : String) (r : Result A) (f : A → Option ResultMsg)
    → OfKind false (or_failed title r f)
unfolding or_failed
or_failed-OfKind title (err e) f = refl
or_failed-OfKind title (ok a) f = elim (Option-cases (f a)) [
  | inl e ↦ rw (e, OfKind) tt
  | inr (x, e) ↦ rw (e, OfKind) refl
]

module _ (codec : Codec) (responses : Responses) {W : Type 0} (net : Net W) where
  exec-OfKind :
      (c : Call) (client : Client W) → OfKind (is_check c) (exec codec responses net c client).0
  unfolding exec then_message
  exec-OfKind check_health client = refl
  exec-OfKind call_health client = refl
  exec-OfKind (replay_entry e) client =
      or_failed-OfKind (replay_title e) (replay codec net e client).0
        (λ x. some (replay_message codec responses net e x))
  exec-OfKind call_init client =
      or_failed-OfKind "init" (Rpc.initialize_snap_and_solve codec responses net client).0
        (init_message)
  exec-OfKind (call_snap s p) client =
      or_failed-OfKind "snap" (Rpc.submit_snap codec responses net s p client).0
        (step_message "snap")
  exec-OfKind (call_respond s r) client =
      or_failed-OfKind "respond" (Rpc.submit_snap_response codec responses net s r client).0
        (step_message "respond")
  exec-OfKind (call_upload p) client =
      or_failed-OfKind "upload" (Rpc.upload_screenshot codec responses net p client).0
        (λ x. some (upload_message x))
  exec-OfKind call_captures client =
      or_failed-OfKind "captures" (Rpc.list_captures codec responses net client).0 (λ cs. some (
        shows "captures" (some (captures_body cs))
          (bytes_of (itoa (length cs)) ++ bytes_of " capture(s)")))
  exec-OfKind call_session client =
      or_failed-OfKind "session" (Rpc.create_session codec responses net client).0
        (λ x. some (session_message x))
  exec-OfKind (call_analyze s ids) client =
      or_failed-OfKind "analyze" (Rpc.analyze_assets codec responses net s ids client).0
        (λ a. some (shows "analyze" (some (analysis_body a)) (summarize_analysis a)))
  exec-OfKind (call_lesson l lang) client =
      or_failed-OfKind "lesson" (Rpc.get_lesson_content codec responses net l lang client).0
        (λ c. some (shows "lesson" (some (lesson_body c)) (lesson_title c)))
  exec-OfKind (call_dev_prompt p) client =
      or_failed-OfKind "devprompt" (Rpc.dev_prompt codec responses net p client).0 (λ reply. some (
        shows "devprompt" (some (text_body reply))
          (bytes_of (itoa (length reply)) ++ bytes_of " chars")))

  pub exec_kind :
      (c : Call) (client client' : Client W) (reply : Reply)
      → exec codec responses net c client ≡ (some reply, client')
      → is_health reply ≡ is_check c
  exec_kind c client client' reply e =
      subst (OfKind (is_check c)) (ap (λ p. p.0) e) (exec-OfKind c client)
