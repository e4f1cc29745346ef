-- ===== src/Startup.antt =====
-- cmd/server/main.go: how the server is put together when it starts. The captures and the sessions have
-- their own part of the disk each. Listening, signals and the log lines are left out.
pub mod Bound
pub mod Captures
use Prim.Native.String as S
use tuti_server.Base.{
  ℕ, ℤ, pos, negsuc, String, Bool, true, false, List, [], ◌∷◌, ◌==◌, ◌||◌, if◌then◌else◌,
}
use tuti_server.Errors.{Result, ok, err, errorf, str, bind}
use tuti_server.Dict.{Dict}
use tuti_server.Os.{Os}
use tuti_server.Session.{Codec}
use tuti_server.Session.Snap.{SnapSession, new_snap_store}
use tuti_server.Session.Solve.{SolveSession, new_solve_store}
use tuti_server.Os.Paths.{clean}
use tuti_server.Filestore as Filestore
use tuti_server.Filestore.{FileStore, file_store}
use tuti_server.Storage as Storage
use tuti_server.Analysis.Analyzer.{Settings}
use tuti_server.Http.Server.{Server}
use tuti_server.Config.{Config}

-- The backends that `analysis.New` knows, each over the client of its SDK.
pub data Backend : Type 0 where
  anthropic openai : (model api_key : String) → Backend

-- `analysis.New`: the analyzer is its backend and its settings.
unfoldable pub new_analyzer : String → String → String → Settings → Result (Backend × Settings)
new_analyzer backend model api_key settings =
    if (backend == "") || (backend == "anthropic")
    then ok (anthropic model api_key, settings)
    else if backend == "openai"
    then ok (openai model api_key, settings)
    else err (errorf "analysis: unknown backend %q" (str backend ∷ []))

-- `http.MaxBytesReader` takes a negative bound for 0.
abbrev pub bound : ℤ → ℕ
bound (pos n) = n
bound (negsuc n) = 0

-- What `run` has made when it begins to listen: the file store behind the sessions, the analyzer, the
-- server and the address.
pub record Started (D : Type 0) : Type 0 where
  pub files : FileStore
  pub backend : Backend
  pub settings : Settings
  pub server : Server D D
  pub addr : String

module _ {D : Type 0} (os : Os D) (snap_codec : Codec SnapSession)
    (solve_codec : Codec SolveSession) where
  -- `run`, up to `ListenAndServe`, with the disk under the captures and the disk under the sessions
  unfoldable pub start : Config → D → D → Result (Started D)
  start cfg capture_disk session_disk =
      let api_key =
        if cfg.analysis_backend == "openai" then cfg.openai_api_key else cfg.anthropic_api_key in
      let dev_log_dir = if cfg.dev_mode then "./data/provider-log" else "" in
      let settings : Settings = record {
        has_logger = true;
        dev_log_dir = dev_log_dir;
        error_log_dir = "./data/provider-log";
      } in
      let (made, disk) = Filestore.new os (clean cfg.session_dir) session_disk in
      bind (Storage.new os (clean cfg.storage_dir) capture_disk) λ captures. bind made λ files.
        bind (new_snap_store (file_store os files) snap_codec disk) λ snaps.
          bind (new_solve_store (file_store os files) solve_codec disk) λ solves.
            bind (new_analyzer cfg.analysis_backend cfg.analysis_model api_key settings) λ analyzer.
              ok (record {
                files = files;
                backend = analyzer.0;
                settings = analyzer.1;
                server = record {
                  captures = captures;
                  session_store = disk;
                  snap_sessions = snaps.sessions;
                  solve_sessions = solves.sessions;
                  logs = [];
                  max_upload_bytes = bound cfg.max_upload_bytes;
                  dev_mode = cfg.dev_mode;
                };
                addr = S.◌++◌ ":" cfg.port;
              })
