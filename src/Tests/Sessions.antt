-- ===== src/Tests/Sessions.antt =====
-- Runs of the two session flows.
use Prim.Native.String
use tuti_server.Base.{
  subst, false, String, ◌≡◌, ◌↔◌, refl, true, List, [], ◌∷◌, some, arith, encode_hex, trim_suffix,
  is_plain, parts,
}
use tuti_server.Errors.{ok, err, sentinel, session_not_found, wrong_step}
use tuti_server.Dict
use tuti_server.Dict.{Dict, get-empty}
use tuti_server.Os.Paths.{join, add_parts, add_part, up}
use tuti_server.Os.Ram
use tuti_server.Os.Ram.{Ram, ram, ram-IsOs}
use tuti_server.Filestore
use tuti_server.Filestore.Laws.{file_store-IsStore, IsOwn, IsGone}
use tuti_server.Filestore.Names.{Records}
use tuti_server.Session
use tuti_server.Session.Laws.{IsStore, TellsMissing}
use tuti_server.Session.Rehydrate.{stored, get-rehydrate, rehydrate_ok_iff, AllRead}
use tuti_server.Session.Snap.{
  SnapSession, SnapStore, init, submit_snap, submit_response, new_snap_store, snap_kind, persist,
}
use tuti_server.Session.Snap.Effects.{fresh_at, snapped_as}
use tuti_server.Session.Snap.Trace.{Call, inits, snaps, Advance, step, run, step-Advance}
use tuti_server.Session.Snap.History.{response_returns_snap, answered_once}
use tuti_server.Session.Snap.Progress.{Works, session_completes}
use tuti_server.Session.Snap.Durable.{restart_recovers}
use tuti_server.Session.Solve.{SolveSession, SolveStore, create, exists, new_solve_store}
use tuti_server.Session.Solve.Created.{created_survives}
use tuti_server.Tests.Fixtures.{
  files, api, api-IsStore, api-IsAtomic, snap_codec, snap_codec-IsCodec, solve_codec,
  solve_codec-IsCodec,
}

sessions_run : Unit {0}
unfolding run step init submit_snap submit_response persist Session.new_id new_snap_store
    Session.rehydrate Session.load_all Session.load_record Dict.get Dict.set Dict.empty
    Filestore.save Filestore.load Filestore.list Filestore.ids_of create exists new_solve_store
    stored encode_hex trim_suffix join add_parts add_part parts is_plain Ram.find Ram.entries
    Ram.child_of Ram.same_path
sessions_run = tt

abbrev nothing : SnapStore Ram
nothing = record { store = []; sessions = Dict.empty }

abbrev opened : SnapStore Ram
opened = run api snap_codec (inits (ok (1 ∷ [])) 5 ∷ []) nothing

abbrev photographed : SnapStore Ram
photographed = (submit_snap api snap_codec "snap_01" "cap_01" opened).1

photo_accepted : (submit_snap api snap_codec "snap_01" "cap_01" opened).0 ≡ ok tt
unfolding sessions_run
photo_accepted = refl

response_accepted : (submit_response api snap_codec "snap_01" photographed).0 ≡ ok "cap_01"
unfolding sessions_run
response_accepted = refl

answered_once_example :
    (submit_response api snap_codec "snap_01" (
        run api snap_codec
          (snaps "snap_01" "cap_02" ∷ [])
          (submit_response api snap_codec "snap_01" photographed).1)
      ≡ (
        err (sentinel wrong_step),
        run api snap_codec
            (snaps "snap_01" "cap_02" ∷ [])
            (submit_response api snap_codec "snap_01" photographed).1,
      ))
    × (submit_snap api snap_codec "snap_01" "cap_03" (
          run api snap_codec
            (snaps "snap_01" "cap_02" ∷ [])
            (submit_response api snap_codec "snap_01" photographed).1)
        ≡ (
          err (sentinel wrong_step),
          run api snap_codec
              (snaps "snap_01" "cap_02" ∷ [])
              (submit_response api snap_codec "snap_01" photographed).1,
        ))
answered_once_example =
    answered_once api snap_codec "snap_01" "cap_01" "cap_03" (snaps "snap_01" "cap_02" ∷ [])
      photographed response_accepted (tt, tt)

response_after_calls :
    (submit_response api snap_codec "snap_01"
      (run api snap_codec (snaps "snap_01" "cap_02" ∷ []) photographed)).0
    ≡ ok "cap_01"
unfolding sessions_run
response_after_calls = refl

response_returns_snap_example : ◌≡◌ {A = String} "cap_01" "cap_01"
response_returns_snap_example =
    response_returns_snap api snap_codec "snap_01" "cap_01" "cap_01" (snaps "snap_01" "cap_02" ∷ [])
      opened photo_accepted (tt, tt) response_after_calls

opened_here : Dict.get opened.sessions "snap_01" ≡ some (fresh_at 5)
unfolding sessions_run
opened_here = refl

step-Advance_example :
    (b : SnapSession) × (Dict.get
        (step api snap_codec (snaps "snap_01" "cap_01") opened).sessions
        "snap_01"
      ≡ some b)
    × Advance (fresh_at 5) b
step-Advance_example =
    step-Advance api snap_codec (snaps "snap_01" "cap_01") opened "snap_01" (fresh_at 5) tt
      opened_here

nothing-IsSynced :
    (id : String) (sess : SnapSession)
    → Dict.get nothing.sessions id ≡ some sess
    → stored api snap_codec snap_kind id nothing.store ≡ some sess
nothing-IsSynced id sess h = ground (arith, get-empty {V = SnapSession} id)

abbrev two_calls : List Call
two_calls = inits (ok (1 ∷ [])) 5 ∷ snaps "snap_01" "cap_01" ∷ []

abbrev restarted : SnapStore Ram
restarted = record {
  store = (run api snap_codec two_calls nothing).store;
  sessions = Dict.set Dict.empty "snap_01" (snapped_as "cap_01" (fresh_at 5));
}

photographed_here :
    Dict.get (run api snap_codec two_calls nothing).sessions "snap_01"
    ≡ some (snapped_as "cap_01" (fresh_at 5))
unfolding sessions_run
photographed_here = refl

starts_again :
    new_snap_store api snap_codec (run api snap_codec two_calls nothing).store ≡ ok restarted
unfolding sessions_run
starts_again = refl

restart_recovers_example :
    Dict.get restarted.sessions "snap_01" ≡ some (snapped_as "cap_01" (fresh_at 5))
restart_recovers_example =
    restart_recovers api snap_codec api-IsStore snap_codec-IsCodec two_calls nothing restarted
      "snap_01" (snapped_as "cap_01" (fresh_at 5)) api-IsAtomic nothing-IsSynced photographed_here
      starts_again

abbrev started_sessions : Dict SnapSession
started_sessions = restarted.sessions

rehydrated :
    Session.rehydrate api snap_codec snap_kind (run api snap_codec two_calls nothing).store
    ≡ ok started_sessions
unfolding sessions_run
rehydrated = refl

get-rehydrate_example :
    Dict.get started_sessions "snap_01"
    ≡ stored api snap_codec snap_kind "snap_01" (run api snap_codec two_calls nothing).store
get-rehydrate_example =
    get-rehydrate api snap_codec snap_kind api-IsStore (run api snap_codec two_calls nothing).store
      started_sessions "snap_01" rehydrated

-- A second file under the kind's directory that is no session record.
abbrev stray : Ram
stray = ("data" ∷ "sessions" ∷ "snap" ∷ "notes.txt" ∷ [], 1 ∷ []) ∷ []

stray_listed : api.list snap_kind stray ≡ ok ("notes.txt" ∷ [])
unfolding sessions_run
stray_listed = refl

rehydrate_ok_iff_example :
    ((m : Dict SnapSession) × (Session.rehydrate api snap_codec snap_kind stray ≡ ok m)) ↔ (
      (ids : List String) × (api.list snap_kind stray ≡ ok ids)
      × AllRead api snap_codec snap_kind ids stray)
rehydrate_ok_iff_example = rehydrate_ok_iff api snap_codec snap_kind stray

file_store-IsStore_example :
    IsStore (Filestore.file_store ram files)
    × TellsMissing
        (IsOwn ram ram-IsOs files)
        (IsGone ram ram-IsOs files)
        (Filestore.file_store ram files)
file_store-IsStore_example = file_store-IsStore ram ram-IsOs files

-- The directory of the sessions holds records alone, and so a session that is not listed is not found.
IsOwn-opened : IsOwn ram ram-IsOs files snap_kind opened.store
unfolding sessions_run
IsOwn-opened = λ es h.
    let same : record { name = "snap_01.json"; is_dir = false } ∷ [] ≡ es = cc in
    subst Records same ((refl, "snap_01", refl), tt)

opened_listed : api.list snap_kind opened.store ≡ ok ("snap_01" ∷ [])
unfolding sessions_run
opened_listed = refl

unknown_missing : api.load snap_kind "snap_02" opened.store ≡ err (sentinel session_not_found)
unfolding sessions_run
unknown_missing =
    ((file_store-IsStore ram ram-IsOs files).1.load_missing snap_kind "snap_02" opened.store
        ("snap_01" ∷ []) IsOwn-opened refl opened_listed).1
      refl

-- A path with ".." in it leaves the directory of the kind.
escapes : Filestore.path files snap_kind "../solve/sess_01" ≡ Filestore.path files "solve" "sess_01"
unfolding sessions_run up
escapes = refl

abbrev no_solving : SolveStore Ram
no_solving = record { store = []; sessions = Dict.empty }

abbrev created : SolveSession
created = record { id = "sess_01"; created_at = 7 }

abbrev solving_again : SolveStore Ram
solving_again = record {
  store = (create api solve_codec (ok (1 ∷ [])) 7 no_solving).1.store;
  sessions = Dict.set Dict.empty "sess_01" created;
}

created_here : (create api solve_codec (ok (1 ∷ [])) 7 no_solving).0 ≡ ok created
unfolding sessions_run
created_here = refl

solving_starts :
    new_solve_store api solve_codec (create api solve_codec (ok (1 ∷ [])) 7 no_solving).1.store
    ≡ ok solving_again
unfolding sessions_run
solving_starts = refl

created_survives_example : exists solving_again "sess_01" ≡ true
created_survives_example =
    created_survives api solve_codec api-IsStore solve_codec-IsCodec (ok (1 ∷ [])) 7 no_solving
      solving_again created created_here solving_starts

-- A codec for every session, of which only the encoding matters here.
abbrev any_codec : Session.Codec SnapSession
any_codec = record {
  marshal = λ a. ok (a.step ∷ a.created_at ∷ []);
  unmarshal = λ bytes. err (sentinel session_not_found);
}

ram-Works : Works api any_codec
unfolding sessions_run
ram-Works = (λ kind id bytes s. refl, λ a. (a.step ∷ a.created_at ∷ [], refl))

session_completes_example :
    ((init api any_codec (ok (1 ∷ [])) 5 nothing).0
      ≡ ok (String.◌++◌ "snap_" (encode_hex (1 ∷ []))))
    × ((submit_snap api any_codec
          (String.◌++◌ "snap_" (encode_hex (1 ∷ [])))
          "cap_01"
          (init api any_codec (ok (1 ∷ [])) 5 nothing).1).0
        ≡ ok tt)
    × ((submit_response api any_codec
          (String.◌++◌ "snap_" (encode_hex (1 ∷ [])))
          (submit_snap api any_codec
            (String.◌++◌ "snap_" (encode_hex (1 ∷ [])))
            "cap_01"
            (init api any_codec (ok (1 ∷ [])) 5 nothing).1).1).0
        ≡ ok "cap_01")
session_completes_example = session_completes api any_codec (1 ∷ []) 5 "cap_01" nothing ram-Works
