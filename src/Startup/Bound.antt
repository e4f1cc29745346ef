-- ===== src/Startup/Bound.antt =====
-- The bound on uploads, from the environment to the server.
use tuti_server.Base.{ℕ, ◌^◌, ◌<◌, String, ◌≡◌, ap, ◌∙◌, arith, itoa}
use tuti_server.Errors.{ok}
use tuti_server.Os.{Os}
use tuti_server.Session.{Codec}
use tuti_server.Session.Snap.{SnapSession}
use tuti_server.Session.Solve.{SolveSession}
use tuti_server.Config.{Config, load, default_max_upload_bytes}
use tuti_server.Config.Ints.{get_env_int64-itoa}
use tuti_server.Startup.{Started, start, bound}

module _ {D : Type 0} (os : Os D) (snap_codec : Codec SnapSession)
    (solve_codec : Codec SolveSession) where
  started_bound :
      (cfg : Config) (d d' : D) (up : Started D)
      → start os snap_codec solve_codec cfg d d' ≡ ok up
      → up.server.max_upload_bytes ≡ bound cfg.max_upload_bytes
  unfolding start
  started_bound cfg d d' up started = ground arith

  -- A number of 63 bits that MAX_UPLOAD_BYTES names in decimal is the bound on uploads of a server that
  -- has started in that environment.
  pub configured_bound :
      (env : String → String) (n : ℕ) (d d' : D) (up : Started D)
      → n < 2 ^ 63
      → env "MAX_UPLOAD_BYTES" ≡ itoa n
      → start os snap_codec solve_codec (load env) d d' ≡ ok up
      → up.server.max_upload_bytes ≡ n
  unfolding load
  configured_bound env n d d' up small written started =
      started_bound (load env) d d' up started
      ∙ ap bound
          (get_env_int64-itoa env "MAX_UPLOAD_BYTES" default_max_upload_bytes n small written)
