-- ===== src/Session/Solve.antt =====
-- The solve sessions of internal/session/session.go: `SolveStore` and its methods.
pub mod Created
use tuti_server.Base.{ℕ, String, Bool, true, false, ◌∷◌, [], Option, none, some}
use tuti_server.Errors.{Result, ok, err, M, ◌>>=◌, ◌>>◌, return, lift, wrapping, wrapf, str, bind}
use tuti_server.Dict
use tuti_server.Dict.{Dict}
use tuti_server.Session.{Bytes, Store, Codec, new_id, rehydrate}

abbrev pub solve_kind : String
solve_kind = "solve"

pub record SolveSession : Type 0 where
  pub id : String
  pub created_at : ℕ

pub record SolveStore (S : Type 0) : Type 0 where
  pub store : S
  pub sessions : Dict SolveSession

module _ {S : Type 0} (api : Store S) (codec : Codec SolveSession) where
  -- `NewSolveStore`
  unfoldable pub new_solve_store : S → Result (SolveStore S)
  new_solve_store s =
      bind (rehydrate api codec solve_kind s) λ m. ok (record { store = s; sessions = m })

  abbrev on_store : {A : Type 0} → M S A → M (SolveStore S) A
  on_store m st = let (r, s') = m st.store in (r, record st { store = s' })

  abbrev put_session : String → SolveSession → M (SolveStore S) (Unit {0})
  put_session id sess st = (ok tt, record st { sessions = Dict.set st.sessions id sess })

  -- `Create`
  unfoldable pub create : Result Bytes → ℕ → M (SolveStore S) SolveSession
  create rand now = do
    id ← lift (new_id "sess_" rand)
    let sess : SolveSession = record { id = id; created_at = now }
    bytes ←
        wrapping (wrapf "session: encode solve session %s: %w" (str id ∷ []))
          (lift (codec.marshal sess))
    wrapping (wrapf "session: save solve session %s: %w" (str id ∷ []))
        (on_store (api.save solve_kind id bytes))
    put_session id sess
    return sess

-- `Exists`
unfoldable pub exists : {S : Type 0} → SolveStore S → String → Bool
exists st session_id = elim (Dict.get st.sessions session_id) [ none ↦ false | some _ ↦ true ]
