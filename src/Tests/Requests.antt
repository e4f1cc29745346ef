-- ===== src/Tests/Requests.antt =====
-- Runs of the handlers over a server with a disk in memory.
pub mod Startup
use tuti_server.Base.{
  String, ◌≡◌, ◌≢◌, ◌⊎◌, inl, refl, true, false, [], ◌∷◌, some, arith, ◌==◌, encode_hex,
}
use tuti_server.Errors.{Error, Result, ok, err, errorf}
use tuti_server.Dict
use tuti_server.Proto.{DisplayAnalysisStep, EvaluatedProblem}
use tuti_server.Os.Ram
use tuti_server.Os.Ram.{Ram, ram, ram-IsOs}
use tuti_server.Filestore
use tuti_server.Session
use tuti_server.Session.Snap
use tuti_server.Session.Snap.{SnapSession, persist}
use tuti_server.Storage
use tuti_server.Storage.{Object}
use tuti_server.Analysis.Draft
use tuti_server.Analysis.Draft.{problem_to_proto}
use tuti_server.Http.Lessons.{handle_get_lesson_content}
use tuti_server.Analysis.Provider.{Bytes, Image}
use tuti_server.Analysis.Analyzer
use tuti_server.Http.{
  Response, handled, ◌>>=◌, ◌>>◌, read_proto, read_all, write_proto, write_json_error,
  SubmitSnapRequest, SubmitSnapResponseRequest, failure, said,
}
use tuti_server.Http.Image.{detect_image_content_type, is_supported_image_type}
use tuti_server.Http.Server.{Server, Outside, Env, snap_store}
use tuti_server.Http.Snap.{
  handle_submit_snap, handle_submit_snap_response, handle_initialize_snap_and_solve,
  write_snap_session_error, build_display_analysis, evaluated_step, extracted_step,
}
use tuti_server.Http.Snap.Flows.{read_response, response_closes_session}
use tuti_server.Http.Snap.Photo.{read_snap, refused_snap_stored, photo_is_analysed, analysis_answer}
use tuti_server.Http.Snap.Display.{Shows, display_analysis_sound}
use tuti_server.Http.Routes.{Request, submit_snap, dev_prompt, endpoint_of, call_endpoint, serve}
use tuti_server.Http.Refused.{body_limit, dev_prompt_guarded, oversized_refused}
use tuti_server.Http.Refused.Unchanged.{bad_request_unchanged}
use tuti_server.Tests.Fixtures.{api, snap_codec, solve_codec}
use tuti_server.Tests.Judgments.{draft, model, settings, prompts, same_char}

requests_run : Unit {0}
unfolding Snap.init Snap.submit_snap Snap.submit_response persist Session.new_id Dict.get Dict.set
    Dict.empty Filestore.save Storage.save Storage.get Storage.new_id encode_hex Ram.find
    Ram.same_path handle_submit_snap handle_submit_snap_response handle_initialize_snap_and_solve
    write_snap_session_error build_display_analysis evaluated_step extracted_step ◌>>=◌ ◌>>◌
    read_proto read_all write_proto write_json_error Draft.validate_problem Draft.validate_statement
    Draft.validate_solution Draft.validate_step Draft.validate_content Draft.validate_block
    Draft.validate_extract Analyzer.extract Analyzer.call Analyzer.log_call Analyzer.log_to_file
    Analyzer.write_dev_log Analyzer.rand_suffix handle_get_lesson_content detect_image_content_type
    is_supported_image_type call_endpoint serve endpoint_of
requests_run = tt

abbrev sent : SubmitSnapRequest
sent = record { session_id = "snap_01"; bytes = 7 ∷ []; filename = "p.png" }

abbrev chosen : SubmitSnapResponseRequest
chosen = record { session_id = "snap_01"; response_id = "solve" }

abbrev no_decoding : {A : Type 0} → Bytes → Result A
no_decoding bytes = err (errorf "not decoded here" [])

-- The photo is a PNG, the page shows the draft, and every message is encoded.
abbrev outside : Outside Ram Ram
outside = record {
  session_api = api;
  snap_codec = snap_codec;
  solve_codec = solve_codec;
  os = ram;
  settings = settings;
  prompts = prompts;
  unmarshal_extract = λ b. ok (record { blank = false; problem = some draft });
  unmarshal_evaluate = no_decoding;
  detect = λ b. "image/png";
  unicode_lower = same_char;
  marshal = λ b. ok [];
  unmarshal_empty = λ b. ok tt;
  unmarshal_submit_snap = λ b. ok sent;
  unmarshal_response = λ b. ok chosen;
  unmarshal_upload = no_decoding;
  unmarshal_analyze = no_decoding;
  unmarshal_lesson = no_decoding;
  unmarshal_prompt = no_decoding;
}

abbrev env : Env
env = record { rand = ok (1 ∷ []); now = 5; backend = model }

abbrev fresh : Server Ram Ram
fresh = record {
  captures = record { disk = []; dir = "uploads" ∷ []; objects = Dict.empty };
  session_store = [];
  snap_sessions = Dict.empty;
  solve_sessions = Dict.empty;
  logs = [];
  max_upload_bytes = 4;
  dev_mode = false;
}

abbrev body : Result Bytes
body = ok (1 ∷ [])

abbrev started : Server Ram Ram
started = (handled (handle_initialize_snap_and_solve outside env body) fresh).1

abbrev photographed : Server Ram Ram
photographed = (handled (handle_submit_snap outside env body) started).1

sent_read : read_snap outside started.max_upload_bytes body ≡ ok sent
unfolding requests_run
sent_read = refl

sent_read_first : read_snap outside fresh.max_upload_bytes body ≡ ok sent
unfolding requests_run
sent_read_first = refl

chosen_read : read_response outside body ≡ ok chosen
unfolding requests_run
chosen_read = refl

limit_is_4 : body_limit started.max_upload_bytes submit_snap ≡ some 4
unfolding requests_run
limit_is_4 = refl

photo_accepted : (handled (handle_submit_snap outside env body) started).0.status ≡ 200
unfolding requests_run
photo_accepted = refl

photo_is_analysed_example :
    ((e : Error) × (sess : SnapSession) × ((persist api snap_codec "snap_01" sess
          (snap_store photographed)).0
        ≡ err e)
      × ((handled (handle_submit_snap_response outside env body) photographed).0
          ≡ write_snap_session_error e))
    ⊎ ((content_type : String) × (detect_image_content_type outside.detect same_char
            (7 ∷ [])
            "p.png"
          ≡ ok content_type)
        × ((handled (handle_submit_snap_response outside env body) photographed).0
            ≡ analysis_answer outside
                (build_display_analysis outside env "solve"
                  (record { bytes = 7 ∷ []; content_type = content_type })
                  photographed.logs).0))
photo_is_analysed_example =
    photo_is_analysed outside env env body body started sent chosen ram-IsOs sent_read chosen_read
      refl refl photo_accepted

answered : (handled (handle_submit_snap_response outside env body) photographed).0.status ≡ 200
unfolding requests_run
answered = refl

response_closes_session_example :
    handled
      (handle_submit_snap_response outside env body)
      (handled (handle_submit_snap_response outside env body) photographed).1
    ≡ (
      record { status = 409; body = failure (said "call is out of order for this session") },
      (handled (handle_submit_snap_response outside env body) photographed).1,
    )
response_closes_session_example =
    response_closes_session outside env env body photographed (inl answered)

photo_refused : (handled (handle_submit_snap outside env body) fresh).0.status ≡ 404
unfolding requests_run
photo_refused = refl

refused_snap_stored_example :
    ((handled (handle_submit_snap outside env body) fresh).1.snap_sessions ≡ fresh.snap_sessions)
    × (obj : Object) × (Storage.get ram obj.id
          (handled (handle_submit_snap outside env body) fresh).1.captures
        ≡ ok (obj, 7 ∷ []))
refused_snap_stored_example =
    refused_snap_stored outside env body fresh sent ram-IsOs sent_read_first (inl photo_refused)

abbrev photo : Image
photo = record { bytes = 7 ∷ []; content_type = "image/png" }

abbrev displayed : DisplayAnalysisStep
displayed =
    extracted_step outside env
      (record { blank = false; problem = some (problem_to_proto draft "detected_01") })

display_done : (build_display_analysis outside env "solve" photo []).0 ≡ ok displayed
unfolding requests_run
display_done = refl

display_analysis_sound_example :
    (("solve" == "check_work") ≡ true
      × ((shown : EvaluatedProblem) × Shows outside env displayed shown))
    ⊎ (("solve" == "check_work") ≡ false
        × ((displayed.problems_captured ≡ [])
            ⊎ ((shown : EvaluatedProblem) × Shows outside env displayed shown
                × (shown.mistakes ≡ []))))
display_analysis_sound_example =
    display_analysis_sound outside env "solve" photo [] displayed display_done

abbrev mux_error : Request → Response
mux_error req = record { status = 404; body = failure (said "404 page not found") }

abbrev unnamed : Request
unnamed = record { method = "POST"; path = "/v1/GetLessonContent"; body = ok (1 ∷ []) }

unnamed_refused : (serve outside mux_error env unnamed photographed).0.status ≡ 400
unfolding requests_run
unnamed_refused = refl

bad_request_unchanged_example : (serve outside mux_error env unnamed photographed).1 ≡ photographed
bad_request_unchanged_example =
    bad_request_unchanged outside env photographed mux_error unnamed unnamed_refused

abbrev too_long : Bytes
too_long = 1 ∷ 2 ∷ 3 ∷ 4 ∷ 5 ∷ []

oversized_refused_example :
    ((handled (call_endpoint outside mux_error env submit_snap (ok too_long)) started).0.status
      ≡ 400)
    × ((handled (call_endpoint outside mux_error env submit_snap (ok too_long)) started).1
        ≡ started)
oversized_refused_example =
    oversized_refused outside env mux_error submit_snap 4 too_long started limit_is_4 (omega arith)
