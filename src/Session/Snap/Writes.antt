-- ===== src/Session/Snap/Writes.antt =====
-- The order of effects in a call of `SnapStore`: the durable store first, then memory.
use tuti_server.Base.{
  String, ◌≡◌, ◌⊎◌, refl, true, some, arith, inl, inr, Bool-cases, eqb, Option-cases, is_plain,
}
use tuti_server.Errors.{Error, ok, err, Result-cases}
use tuti_server.Dict
use tuti_server.Dict.{get-set}
use tuti_server.Session.{Store, Codec, new_id}
use tuti_server.Session.Ids.{new_id-is_plain}
use tuti_server.Session.Snap.{
  SnapSession, SnapStore, persist, init, submit_snap, submit_response, step_await_snap,
  step_await_response,
}
use tuti_server.Session.Snap.Effects.{snapped_as, done_as, fresh_at}
use tuti_server.Session.Snap.Trace.{Call, inits, snaps, responds, step}

snap_plain : is_plain "snap_" ≡ true
unfolding is_plain
snap_plain = refl

module _ {S : Type 0} (api : Store S) (codec : Codec SnapSession) where
  -- What a call saves under: a name, or the id of a session in memory.
  abbrev pub IsId : String → SnapStore S → Type 0
  IsId id st = (is_plain id ≡ true) ⊎ ((a : SnapSession) × (Dict.get st.sessions id ≡ some a))

  -- A call saves at most one record, and changes memory after the save has succeeded.
  pub data Write (st : SnapStore S) (st' : SnapStore S) : Type 0 where
    unchanged : st' ≡ st → Write st st'
    failed :
        (id : String) (sess : SnapSession) (e : Error)
        → IsId id st
        → (persist api codec id sess st).0 ≡ err e
        → st' ≡ (persist api codec id sess st).1
        → Write st st'
    committed :
        (id : String) (sess : SnapSession)
        → IsId id st
        → (persist api codec id sess st).0 ≡ ok tt
        → st' ≡ record (persist api codec id sess st).1 {
          sessions = Dict.set (persist api codec id sess st).1.sessions id sess;
        }
        → Write st st'

  pub step-Write : (c : Call) (st : SnapStore S) → Write st (step api codec c st)
  unfolding step init submit_snap submit_response
  step-Write (inits rand now) st = elim (Result-cases (new_id "snap_" rand)) [
    | inl (id, made) ↦
        let plain = new_id-is_plain "snap_" id rand snap_plain made in
        elim (Result-cases (persist api codec id (fresh_at now) st).0) [
          | inl (u, saved) ↦ committed id (fresh_at now) (inl plain) saved (ground arith)
          | inr (e, lost) ↦ failed id (fresh_at now) e (inl plain) lost (ground arith)
        ]
    | inr (e, no_id) ↦ unchanged (ground arith)
  ]
  step-Write (snaps id capture) st = elim (Option-cases (Dict.get st.sessions id)) [
    | inl missing ↦ unchanged (ground arith)
    | inr (a, found) ↦ elim (Result-cases (persist api codec id (snapped_as capture a) st).0) [
      | inl (u, saved) ↦ elim (Bool-cases (eqb a.step step_await_snap)) [
        | inl right ↦ committed id (snapped_as capture a) (inr (a, found)) saved (ground arith)
        | inr wrong ↦ unchanged (ground arith)
      ]
      | inr (e, lost) ↦ elim (Bool-cases (eqb a.step step_await_snap)) [
        | inl right ↦ failed id (snapped_as capture a) e (inr (a, found)) lost (ground arith)
        | inr wrong ↦ unchanged (ground arith)
      ]
    ]
  ]
  step-Write (responds id) st = elim (Option-cases (Dict.get st.sessions id)) [
    | inl missing ↦ unchanged (ground arith)
    | inr (a, found) ↦ elim (Result-cases (persist api codec id (done_as a) st).0) [
      | inl (u, saved) ↦ elim (Bool-cases (eqb a.step step_await_response)) [
        | inl right ↦ committed id (done_as a) (inr (a, found)) saved (ground arith)
        | inr wrong ↦ unchanged (ground arith)
      ]
      | inr (e, lost) ↦ elim (Bool-cases (eqb a.step step_await_response)) [
        | inl right ↦ failed id (done_as a) e (inr (a, found)) lost (ground arith)
        | inr wrong ↦ unchanged (ground arith)
      ]
    ]
  ]
