-- ===== src/Http/Refused/Rules.antt =====
-- Which handlers keep the state when they answer 400, by the way a handler is put together.
use tuti_server.Base.{ℕ, String, Bool, true, false, ◌≡◌, ◌≢◌, refl, arith, inl, inr}
use tuti_server.Errors.{Error, Result, ok, err, M, Result-cases}
use tuti_server.Http.{
  Bytes, Response, H, Flow, stop, go, handled, ◌>>=◌, ◌>>◌, or_stop, attempt, refuse_if, respond,
  write_proto, write_json_error, Body, said, replied, look, settle, Message,
}
use tuti_server.Http.Snap.{write_snap_session_error}

module _ {S : Type 0} where
  -- From this state, an answer of 400 comes with the state as it was.
  unfoldable pub KeepsAt : S → H S Response → Type 0
  KeepsAt s h = (handled h s).0.status ≡ 400 → (handled h s).1 ≡ s

  -- No state leads to an answer of 400.
  unfoldable pub Accepts : H S Response → Type 0
  Accepts h = (s : S) → (handled h s).0.status ≢ 400

  pub Accepts-KeepsAt : (s : S) (h : H S Response) → Accepts h → KeepsAt s h
  unfolding Accepts KeepsAt
  Accepts-KeepsAt s h never refused = ground (arith, never s refused)

  module _ {A : Type 0} where
    pub or_stop-KeepsAt :
        (s : S) (r : Result A) (refuse : Error → Response) (f : A → H S Response)
        → ((a : A) → KeepsAt s (f a))
        → KeepsAt s (or_stop r refuse >>= f)
    unfolding KeepsAt ◌>>=◌ ◌>>◌
    or_stop-KeepsAt s (ok a) refuse f rest = rest a
    or_stop-KeepsAt s (err e) refuse f rest = λ _. refl

    pub look-KeepsAt :
        (s : S) (seen : S → A) (f : A → H S Response)
        → KeepsAt s (f (seen s))
        → KeepsAt s (look seen >>= f)
    unfolding KeepsAt ◌>>=◌ ◌>>◌
    look-KeepsAt s seen f rest = rest

    pub look-Accepts :
        (seen : S → A) (f : A → H S Response)
        → ((a : A) → Accepts (f a))
        → Accepts (look seen >>= f)
    unfolding Accepts ◌>>=◌
    look-Accepts seen f rest s = rest (seen s) s

    pub settle-KeepsAt :
        (s : S) (r : Flow A) (f : A → H S Response)
        → ((a : A) → KeepsAt s (f a))
        → KeepsAt s (settle r >>= f)
    unfolding KeepsAt ◌>>=◌ ◌>>◌
    settle-KeepsAt s (go a) f rest = rest a
    settle-KeepsAt s (stop r) f rest = λ _. refl

    pub or_stop-Accepts :
        (r : Result A) (refuse : Error → Response) (f : A → H S Response)
        → ((e : Error) → (refuse e).status ≢ 400)
        → ((a : A) → Accepts (f a))
        → Accepts (or_stop r refuse >>= f)
    unfolding Accepts ◌>>=◌
    or_stop-Accepts (ok a) refuse f other rest = rest a
    or_stop-Accepts (err e) refuse f other rest = λ s. other e

    pub attempt-Accepts :
        (m : M S A) (refuse : Error → Response) (f : A → H S Response)
        → ((e : Error) → (refuse e).status ≢ 400)
        → ((a : A) → Accepts (f a))
        → Accepts (attempt m refuse >>= f)
    unfolding Accepts ◌>>=◌
    attempt-Accepts m refuse f other rest s h = elim (Result-cases (m s).0) [
      | inl (a, made) ↦ ground (arith, rest a (m s).1)
      | inr (e, failed) ↦ ground (arith, other e)
    ]

  pub refuse_if-KeepsAt :
      (s : S) (bad : Bool) (r : Response) (k : H S Response)
      → KeepsAt s k
      → KeepsAt s (refuse_if bad r >> k)
  unfolding KeepsAt ◌>>=◌ ◌>>◌
  refuse_if-KeepsAt s true r k rest = λ _. refl
  refuse_if-KeepsAt s false r k rest = rest

  pub or_stop_then-KeepsAt :
      (s : S) (r : Result (Unit {0})) (refuse : Error → Response) (k : H S Response)
      → KeepsAt s k
      → KeepsAt s (or_stop r refuse >> k)
  unfolding ◌>>◌
  or_stop_then-KeepsAt s r refuse k rest = or_stop-KeepsAt s r refuse (λ _. k) λ _. rest

  pub attempt_then-Accepts :
      (m : M S (Unit {0})) (refuse : Error → Response) (k : H S Response)
      → ((e : Error) → (refuse e).status ≢ 400)
      → Accepts k
      → Accepts (attempt m refuse >> k)
  unfolding ◌>>◌
  attempt_then-Accepts m refuse k other rest = attempt-Accepts m refuse (λ _. k) other λ _. rest

module _ (S : Type 0) where
  pub respond-Accepts :
      (marshal : Body → Result Bytes) (status : ℕ) (b : Body)
      → status ≢ 400
      → Accepts {S = S} (respond (write_proto marshal status b))
  unfolding Accepts write_proto write_json_error
  respond-Accepts marshal status b other s h = elim (Result-cases (marshal b)) [
    | inl (bytes, made) ↦ ground arith
    | inr (e, failed) ↦ ground arith
  ]

pub session_error_other : (e : Error) → (write_snap_session_error e).status ≢ 400
unfolding write_snap_session_error write_json_error
session_error_other e h = ground arith

pub replied-Accepts :
    (S : Type 0) (reply : String)
    → Accepts {S = S} (respond (record { status = 200; body = replied reply }))
unfolding Accepts
replied-Accepts S reply s h = omega (arith, h)

pub other_status :
    (m : Message) (status : ℕ) → status ≢ 400 → (write_json_error status m).status ≢ 400
unfolding write_json_error
other_status m status other = other

module _ {S A : Type 0} where
  pub or_stop_said-Accepts :
      (r : Result A) (status : ℕ) (text : String) (f : A → H S Response)
      → status ≢ 400
      → ((a : A) → Accepts (f a))
      → Accepts (or_stop r (λ _. write_json_error status (said text)) >>= f)
  or_stop_said-Accepts r status text f other =
      or_stop-Accepts r _ f (λ _. other_status (said text) status other)

  pub attempt_said-Accepts :
      (m : M S A) (status : ℕ) (text : String) (f : A → H S Response)
      → status ≢ 400
      → ((a : A) → Accepts (f a))
      → Accepts (attempt m (λ _. write_json_error status (said text)) >>= f)
  attempt_said-Accepts m status text f other =
      attempt-Accepts m _ f (λ _. other_status (said text) status other)

pub other_200 : ◌≢◌ {A = ℕ} 200 400
other_200 h = omega (arith, h)

pub other_201 : ◌≢◌ {A = ℕ} 201 400
other_201 h = omega (arith, h)

pub other_500 : ◌≢◌ {A = ℕ} 500 400
other_500 h = omega (arith, h)

pub other_502 : ◌≢◌ {A = ℕ} 502 400
other_502 h = omega (arith, h)
