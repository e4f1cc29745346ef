-- ===== src/Session.antt =====
-- internal/session/session.go: the durable store that both session flows write through to, and what
-- the two flows share.
pub mod Ids
pub mod Laws
pub mod Rehydrate
pub mod Snap
pub mod Solve
use Prim.Native.String
use tuti_server.Base.{ℕ, String, List, [], ◌∷◌, encode_hex}
use tuti_server.Errors.{Result, ok, err, M, wrapf, str, map_err, bind}
use tuti_server.Dict
use tuti_server.Dict.{Dict}

abbrev pub Bytes : Type 0
Bytes = List ℕ

-- `Store`, over the state `S` of an implementation.
pub record Store (S : Type 0) : Type 0 where
  pub save : String → String → Bytes → M S (Unit {0})
  pub load : String → String → S → Result Bytes
  pub list : String → S → Result (List String)

-- `json.Marshal` and `json.Unmarshal` at the record type of a flow.
pub record Codec (A : Type 0) : Type 0 where
  pub marshal : A → Result Bytes
  pub unmarshal : Bytes → Result A

-- `newID`; `rand` is what `rand.Read` gives for the eight bytes.
unfoldable pub new_id : String → Result Bytes → Result String
new_id prefix rand = bind rand λ b. ok (String.◌++◌ prefix (encode_hex b))

-- The loops of `NewSnapStore` and `NewSolveStore`, which differ in the kind alone.
module _ {S A : Type 0} (store : Store S) (codec : Codec A) (kind : String) where
  unfoldable pub load_record : String → S → Result A
  load_record id s =
      bind
        (map_err (wrapf "session: load %s session %s: %w" (str kind ∷ str id ∷ []))
          (store.load kind id s))
        λ bytes.
          map_err (wrapf "session: decode %s session %s: %w" (str kind ∷ str id ∷ []))
            (codec.unmarshal bytes)

  unfoldable pub load_all : List String → Dict A → S → Result (Dict A)
  load_all [] sessions s = ok sessions
  load_all (id ∷ ids) sessions s =
      bind (load_record id s) λ sess. load_all ids (Dict.set sessions id sess) s

  unfoldable pub rehydrate : S → Result (Dict A)
  rehydrate s =
      bind (map_err (wrapf "session: list %s sessions: %w" (str kind ∷ [])) (store.list kind s))
        λ ids. load_all ids Dict.empty s
