-- ===== src/Tests/Fixtures.antt =====
-- A server over a disk in memory, and codecs for a few records, for the runs of the other modules.
use tuti_server.Base.{[], ◌∷◌, ◌==◌, eq_iff, arith, if◌then◌else◌}
use tuti_server.Errors.{Result, ok, err, errorf}
use tuti_server.Os.Ram.{Ram, ram, ram-IsOs}
use tuti_server.Filestore.{FileStore, file_store, save, load}
use tuti_server.Filestore.Laws.{file_store-IsStore}
use tuti_server.Session.{Bytes, Store, Codec}
use tuti_server.Session.Laws.{IsStore, IsAtomic, IsCodec}
use tuti_server.Session.Snap.{SnapSession}
use tuti_server.Session.Solve.{SolveSession}

abbrev pub files : FileStore
files = record { dir = "data" ∷ "sessions" ∷ [] }

abbrev pub api : Store Ram
api = file_store ram files

pub api-IsStore : IsStore api
api-IsStore = (file_store-IsStore ram ram-IsOs files).0

pub api-IsAtomic : IsAtomic api
unfolding save load
api-IsAtomic = record { load-save_failed = λ kind id bytes s e h. ground arith }

-- Sessions with no capture or with the first one.
abbrev read_snap : Bytes → Result SnapSession
read_snap (step ∷ created ∷ []) = ok (record { step = step; capture_id = ""; created_at = created })
read_snap (step ∷ created ∷ _ ∷ []) =
    ok (record { step = step; capture_id = "cap_01"; created_at = created })
read_snap _ = err (errorf "bad record" [])

abbrev write_snap : SnapSession → Result Bytes
write_snap a =
    if a.capture_id == ""
    then ok (a.step ∷ a.created_at ∷ [])
    else if a.capture_id == "cap_01"
    then ok (a.step ∷ a.created_at ∷ 1 ∷ [])
    else err (errorf "unknown capture" [])

abbrev pub snap_codec : Codec SnapSession
snap_codec = record { marshal = write_snap; unmarshal = read_snap }

pub snap_codec-IsCodec : IsCodec snap_codec
snap_codec-IsCodec = record {
  unmarshal-marshal =
      λ a bytes h. ground (arith, eq_iff a.capture_id "", eq_iff a.capture_id "cap_01");
}

-- The one session that the next test creates.
abbrev pub solve_codec : Codec SolveSession
solve_codec = record {
  marshal = λ a. if a.id == "sess_01" then ok (a.created_at ∷ []) else err (errorf "unknown id" []);
  unmarshal = λ bytes. elim bytes [
    | [] ↦ err (errorf "bad record" [])
    | b ∷ bs ↦ ok (record { id = "sess_01"; created_at = b })
  ];
}

pub solve_codec-IsCodec : IsCodec solve_codec
solve_codec-IsCodec = record {
  unmarshal-marshal = λ a bytes h. ground (arith, eq_iff a.id "sess_01");
}
