-- ===== src/Session/Snap.antt =====
-- The Snap & Solve flow of internal/session/session.go: `SnapStore` and its methods. A method runs
-- under the mutex, so it is one step; `init` holds the mutex only for its last assignment.
pub mod Effects
pub mod Trace
pub mod History
pub mod Writes
pub mod Durable
pub mod Progress
use tuti_server.Base.{ℕ, String, ◌≡◌, List, [], ◌∷◌, eqb}
use tuti_server.Errors.{
  Result, ok, err, M, ◌>>=◌, ◌>>◌, return, lift, guard, wrapping, or_fail, wrapf, str, sentinel,
  session_not_found, wrong_step, bind,
}
use tuti_server.Dict
use tuti_server.Dict.{Dict}
use tuti_server.Session.{Bytes, Store, Codec, new_id, rehydrate}

-- `snapStep`
abbrev pub step_await_snap : ℕ
step_await_snap = 0

abbrev pub step_await_response : ℕ
step_await_response = 1

abbrev pub step_done : ℕ
step_done = 2

abbrev pub snap_kind : String
snap_kind = "snap"

-- `snapSession`; the time counts from a fixed start.
pub record SnapSession : Type 0 where
  pub step : ℕ
  pub capture_id : String
  pub created_at : ℕ

pub record SnapStore (S : Type 0) : Type 0 where
  pub store : S
  pub sessions : Dict SnapSession

module _ {S : Type 0} (api : Store S) (codec : Codec SnapSession) where
  -- `NewSnapStore`
  unfoldable pub new_snap_store : S → Result (SnapStore S)
  new_snap_store s =
      bind (rehydrate api codec snap_kind s) λ m. ok (record { store = s; sessions = m })

  -- A call of the durable store.
  abbrev on_store : {A : Type 0} → M S A → M (SnapStore S) A
  on_store m st = let (r, s') = m st.store in (r, record st { store = s' })

  unfoldable pub persist : String → SnapSession → M (SnapStore S) (Unit {0})
  persist id sess = do
    bytes ←
        wrapping (wrapf "session: encode snap session %s: %w" (str id ∷ []))
          (lift (codec.marshal sess))
    wrapping (wrapf "session: save snap session %s: %w" (str id ∷ []))
        (on_store (api.save snap_kind id bytes))

  -- `s.sessions[id] = sess`
  abbrev put_session : String → SnapSession → M (SnapStore S) (Unit {0})
  put_session id sess st = (ok tt, record st { sessions = Dict.set st.sessions id sess })

  -- `sess, ok := s.sessions[id]`
  abbrev find_session : String → M (SnapStore S) SnapSession
  find_session id st = (or_fail (Dict.get st.sessions id) (sentinel session_not_found), st)

  -- `Init`, at the bytes that `rand.Read` gives and the time of the call
  unfoldable pub init : Result Bytes → ℕ → M (SnapStore S) String
  init rand now = do
    id ← lift (new_id "snap_" rand)
    let sess : SnapSession = record { step = step_await_snap; capture_id = ""; created_at = now }
    persist id sess
    put_session id sess
    return id

  -- `SubmitSnap`
  unfoldable pub submit_snap : String → String → M (SnapStore S) (Unit {0})
  submit_snap session_id capture_id = do
    sess ← find_session session_id
    guard (eqb sess.step step_await_snap) (sentinel wrong_step)
    let next : SnapSession = record sess { capture_id = capture_id; step = step_await_response }
    persist session_id next
    put_session session_id next

  -- `SubmitResponse`
  unfoldable pub submit_response : String → M (SnapStore S) String
  submit_response session_id = do
    sess ← find_session session_id
    guard (eqb sess.step step_await_response) (sentinel wrong_step)
    let next : SnapSession = record sess { step = step_done }
    persist session_id next
    put_session session_id next
    return next.capture_id
