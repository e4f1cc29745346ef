-- ===== src/Tests/Requests/Startup.antt =====
-- A server that stops while a session waits for its response, and starts again.
use tuti_server.Base.{
  ◌≡◌, refl, String, [], ◌∷◌, arith, itoa, trim_suffix, parts, is_plain, if◌then◌else◌, ◌==◌,
  parse_digits,
}
use tuti_server.Errors.{ok}
use tuti_server.Os.Ram
use tuti_server.Os.Ram.{Ram, ram}
use tuti_server.Os.Paths.{join, add_parts, add_part, clean}
use tuti_server.Filestore
use tuti_server.Filestore.{file_store, ids_of}
use tuti_server.Storage
use tuti_server.Session.{rehydrate, load_all, load_record}
use tuti_server.Session.Snap as Snap
use tuti_server.Session.Solve as Solve
use tuti_server.Http.{handled, failure, said}
use tuti_server.Http.Server.{Server, Outside, snap_store}
use tuti_server.Http.Snap.{
  handle_submit_snap, handle_submit_snap_response, handle_initialize_snap_and_solve,
}
use tuti_server.Http.Snap.Flows.{read_response}
use tuti_server.Config.{load, get_env, get_env_bool, get_env_int64, parse_int}
use tuti_server.Startup.Bound.{configured_bound}
use tuti_server.Startup.{Started, start, new_analyzer}
use tuti_server.Startup.Captures.{captures_lost}
use tuti_server.Tests.Requests.{requests_run, outside, env, fresh, body, chosen}

abbrev no_variables : String → String
no_variables key = ""

startup_run : Unit {0}
unfolding requests_run start new_analyzer load get_env get_env_bool get_env_int64 Filestore.new join
    add_parts add_part clean parts is_plain Filestore.load Filestore.list ids_of Storage.new
    rehydrate load_all load_record Snap.new_snap_store Solve.new_solve_store Ram.entries
    Ram.child_of trim_suffix
startup_run = tt

abbrev wired : Outside Ram Ram
wired = record outside { session_api = file_store ram (record { dir = "data" ∷ "sessions" ∷ [] }) }

abbrev waiting : Server Ram Ram
waiting =
    let started = (handled (handle_initialize_snap_and_solve wired env body) fresh).1 in
    (handled (handle_submit_snap wired env body) started).1

restarted :
    (up : Started Ram) × (start ram wired.snap_codec wired.solve_codec
        (load no_variables)
        waiting.captures.disk
        waiting.session_store
      ≡ ok up)
unfolding startup_run
restarted = (_, refl)

still_waiting :
    (capture : String) × ((Snap.submit_response wired.session_api wired.snap_codec "snap_01"
        (snap_store restarted.0.server)).0
      ≡ ok capture)
unfolding startup_run restarted
still_waiting = (_, refl)

response_read : read_response wired body ≡ ok chosen
unfolding startup_run
response_read = refl

captures_lost_example :
    ((handled (handle_submit_snap_response wired env body) restarted.0.server).0
      ≡ record { status = 500; body = failure (said "failed to load capture") })
    × (handled
          (handle_submit_snap_response wired env body)
          (handled (handle_submit_snap_response wired env body) restarted.0.server).1
        ≡ (
          record { status = 409; body = failure (said "call is out of order for this session") },
          (handled (handle_submit_snap_response wired env body) restarted.0.server).1,
        ))
captures_lost_example =
    captures_lost wired (load no_variables) waiting.captures.disk waiting.session_store restarted.0
      env env body chosen still_waiting.0 restarted.1 response_read refl refl still_waiting.1

abbrev small_uploads : String → String
small_uploads key = if key == "MAX_UPLOAD_BYTES" then itoa 5000000 else ""

bounded :
    (up : Started Ram) × (start ram wired.snap_codec wired.solve_codec
        (load small_uploads)
        waiting.captures.disk
        waiting.session_store
      ≡ ok up)
unfolding startup_run itoa parse_int parse_digits
bounded = (_, refl)

configured_bound_example : bounded.0.server.max_upload_bytes ≡ 5000000
configured_bound_example =
    configured_bound ram wired.snap_codec wired.solve_codec small_uploads 5000000
      waiting.captures.disk waiting.session_store bounded.0 (omega arith) refl bounded.1
