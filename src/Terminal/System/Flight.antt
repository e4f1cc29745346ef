-- ===== src/Terminal/System/Flight.antt =====
-- There is at most one request of the user under way.
use tuti_server.Base.{
  ℕ, ◌+◌, ◌≡◌, refl, sym, ap, ◌∙◌, subst, String, Bool, true, false, not, List, [], ◌∷◌, ◌++◌,
  Option, none, some, arith, Bool-cases, inl, inr, if◌then◌else◌, ◌==◌, if_case,
}
use tuti_server.Client.{Codec, Net, HistoryEntry}
use tuti_server.Client.Rpc.{Responses}
use tuti_server.Terminal.Widgets.{Widgets, Texts}
use tuti_server.Terminal.Model.{Model, new}
use tuti_server.Terminal.Run.{Reply, health_result, result_reply}
use tuti_server.Terminal.Exec.Kinds.{is_check, is_health, exec_kind}
use tuti_server.Terminal.Update.{
  Effect, quit, task, start, Msg, window_size, key, health_msg, result, tick, other, is_picker,
}
use tuti_server.Terminal.Update.Quiet.{Flies, starts, one_if, apply_size-busy}
use tuti_server.Terminal.Keys.{update, handle_key, init}
use tuti_server.Terminal.Keys.Quiet.{
  handle_key-Flies, handle_key_busy, Settled, health_msg-Settled, result-Settled,
}
use tuti_server.Terminal.System.{
  Pending, running, arrived, System, from_outside, msg_of, started, boot, Step, outside, work,
  deliver, Reach, booted, stepped,
}

-- The commands of the user that are under way; the health check of the start is none of them.
abbrev pub requests : List Pending → ℕ
requests [] = 0
requests (running c ∷ rest) = one_if (not (is_check c)) + requests rest
requests (arrived r ∷ rest) = one_if (not (is_health r)) + requests rest

requests-append : (xs ys : List Pending) → requests (xs ++ ys) ≡ requests xs + requests ys
requests-append [] ys = omega arith
requests-append (running c ∷ xs) ys = omega (arith, requests-append xs ys)
requests-append (arrived r ∷ xs) ys = omega (arith, requests-append xs ys)

requests-started : {ui : Widgets} (fx : List (Effect ui)) → requests (started fx) ≡ starts ui fx
requests-started [] = refl
requests-started (start c ∷ rest) = omega (arith, requests-started rest)
requests-started (quit ∷ rest) = requests-started rest
requests-started (task t ∷ rest) = requests-started rest

requests-middle :
    (before after : List Pending) (p q : Pending)
    → requests (p ∷ []) ≡ requests (q ∷ [])
    → requests (before ++ (p ∷ after)) ≡ requests (before ++ (q ∷ after))
requests-middle before after p q e = omega (
  arith,
  e,
  requests-append before (p ∷ after),
  requests-append before (q ∷ after),
  requests-append (p ∷ []) after,
  requests-append (q ∷ []) after,
)

-- The requests that remain, where one message has been delivered.
remaining :
    (reply : Reply) (b : Bool) (n : ℕ)
    → one_if (not (is_health reply)) + n ≡ one_if b
    → n ≡ one_if (if is_health reply then b else false)
remaining (health_result e) b n h = omega (arith, h)
remaining (result_reply msg) true n h = omega (arith, h)
remaining (result_reply msg) false n h = omega (arith, h)

module _ (ui : Widgets) (codec : Codec) (texts : Texts) where
  -- What a message from outside starts, against what it does to `busy`.
  abbrev Balanced : Model ui → Option (Model ui × List (Effect ui)) → Type 0
  Balanced m none = Unit
  Balanced m (some (m', fx)) = starts ui fx + one_if m.busy ≡ one_if m'.busy

  of_idle :
      (m : Model ui) (o : Option (Model ui × List (Effect ui)))
      → m.busy ≡ false
      → Flies ui o
      → Balanced m o
  of_idle m none idle h = tt
  of_idle m (some (m', fx)) idle h = omega (arith, h, ap one_if idle)

  key-Balanced :
      (entries : List HistoryEntry) (k : ui.Key) (m : Model ui)
      → Balanced m (handle_key ui codec texts entries k m)
  key-Balanced entries k m = elim (Bool-cases m.busy) [
    | inl e ↦ subst (Balanced m) (sym (handle_key_busy ui codec texts entries k m e)) (
        if_case (λ p. Balanced m (some p)) (ui.key_text k == "ctrl+c") (λ _. omega arith)
          (λ _. omega arith))
    | inr e ↦ of_idle m _ e (handle_key-Flies ui codec texts entries k m e)
  ]

  other-Balanced :
      (entries : List HistoryEntry) (event : ui.Event) (m : Model ui)
      → Balanced m (update ui codec texts entries (other event) m)
  unfolding update
  other-Balanced entries event m =
      if_case (Balanced m) (is_picker m.focus) (λ _. omega arith) (λ _. omega arith)

  outside-Balanced :
      (entries : List HistoryEntry) (msg : Msg ui) (m : Model ui)
      → from_outside msg ≡ true
      → Balanced m (update ui codec texts entries msg m)
  unfolding update
  outside-Balanced entries (window_size width height) m h = omega (
    arith,
    ap one_if
        (apply_size-busy ui codec texts entries (record m { width = width; height = height })),
  )
  outside-Balanced entries (key k) m h = key-Balanced entries k m
  outside-Balanced entries (health_msg e) m h = absurd (cc)
  outside-Balanced entries (result msg) m h = absurd (cc)
  outside-Balanced entries (tick event) m h = omega arith
  outside-Balanced entries (other event) m h = other-Balanced entries event m

  -- The message of a command starts nothing; a result ends the request, if there is one.
  delivered-Settled :
      (entries : List HistoryEntry) (reply : Reply) (m : Model ui)
      → Settled ui codec texts
          (if is_health reply then m.busy else false)
          (update ui codec texts entries (msg_of reply) m)
  delivered-Settled entries (health_result e) m = health_msg-Settled ui codec texts entries e m
  delivered-Settled entries (result_reply msg) m = result-Settled ui codec texts entries msg m

module _ (ui : Widgets) (codec : Codec) (texts : Texts) (responses : Responses) {W : Type 0}
    (net : Net W) where
  -- As many requests of the user are under way as the model says, one or none.
  InFlight : System ui W → Type 0
  InFlight s = requests s.pending ≡ one_if s.model.busy

  boot-InFlight :
      (base_url : String) (w : W) → InFlight (boot ui codec texts responses net base_url w)
  unfolding boot init InFlight new
  boot-InFlight base_url w = refl

  step-InFlight :
      {s s' : System ui W} → Step ui codec texts responses net s s' → InFlight s → InFlight s'
  unfolding InFlight
  step-InFlight {s} (outside msg m fx from_out e) h =
      let balanced =
        subst (Balanced ui codec texts s.model) e
          (outside-Balanced ui codec texts s.client.history msg s.model from_out) in
      omega (arith, h, balanced, requests-append s.pending (started fx), requests-started fx)
  step-InFlight {s} (work before after c reply client e done) h =
      requests-middle before after (arrived reply) (running c)
        (ap (λ b. one_if (not b) + 0) (exec_kind codec responses net c s.client client reply done))
      ∙ sym (ap requests e)
      ∙ h
  step-InFlight {s} (deliver before after reply m fx e got) h =
      let settled =
        subst (Settled ui codec texts (if is_health reply then s.model.busy else false)) got
          (delivered-Settled ui codec texts s.client.history reply s.model) in
      let left =
        remaining reply s.model.busy (requests before + requests after)
          (omega (arith, h, ap requests e, requests-append before (arrived reply ∷ after))) in
      omega (
        arith,
        settled.0,
        left,
        ap one_if settled.1,
        requests-append (before ++ after) (started fx),
        requests-append before after,
        requests-started fx,
      )

  -- Wherever the program can come to, with any messages of the terminal at any time and commands that
  -- answer when they will: at most one request of the user is under way, and one is exactly where the
  -- model says that it is busy. The health check of the start is not counted.
  pub one_request_in_flight :
      {base_url : String} {w : W} {s : System ui W}
      → Reach ui codec texts responses net base_url w s
      → requests s.pending ≡ one_if s.model.busy
  unfolding InFlight
  one_request_in_flight booted = boot-InFlight _ _
  one_request_in_flight (stepped r step) = step-InFlight step (one_request_in_flight r)
