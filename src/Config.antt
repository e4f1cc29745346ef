-- ===== src/Config.antt =====
-- internal/config/config.go: the configuration, from an environment that is a function from names to
-- values, empty where a variable is not set.
pub mod Ints
use Prim.Native.Char.{Char, code}
use Prim.Native.String as S
use tuti_server.Base.{
  ℕ, ◌+◌, ◌-◌, ◌*◌, ◌^◌, ℤ, pos, neg, String, Bool, Option, none, some, true, false, leb, eqb,
  parse_digits, ◌==◌, ◌&&◌, ◌||◌, if◌then◌else◌,
}

pub record Config : Type 0 where
  pub port : String
  pub storage_dir : String
  pub session_dir : String
  pub analysis_backend : String
  pub analysis_model : String
  pub anthropic_api_key : String
  pub openai_api_key : String
  pub max_upload_bytes : ℤ
  pub dev_mode : Bool

abbrev pub default_max_upload_bytes : ℤ
default_max_upload_bytes = pos 10485760

-- A number that fits into 64 bits with its sign
in_range : Bool → Option ℕ → Option ℤ
in_range negative none = none
in_range true (some n) = if leb n (2 ^ 63) then some (neg n) else none
in_range false (some n) = if leb n (2 ^ 63 - 1) then some (pos n) else none

unsigned : Bool → String → Option ℤ
unfolding in_range
unsigned negative s = if s == "" then none else in_range negative (parse_digits 0 s)

-- `strconv.ParseInt(s, 10, 64)`: a sign, and digits
unfoldable pub parse_int : String → Option ℤ
unfolding unsigned
parse_int S.[] = none
parse_int (S.◌∷◌ c s) =
    if eqb (code c) 45
    then unsigned true s
    else if eqb (code c) 43
    then unsigned false s
    else unsigned false (S.◌∷◌ c s)

or_else : ℤ → Option ℤ → ℤ
or_else fallback none = fallback
or_else fallback (some n) = n

module _ (env : String → String) where
  unfoldable pub get_env : String → String → String
  get_env key fallback = if env key == "" then fallback else env key

  unfoldable pub get_env_bool : String → Bool
  get_env_bool key = (env key == "true") || (env key == "1")

  unfoldable pub get_env_int64 : String → ℤ → ℤ
  unfolding or_else
  get_env_int64 key fallback =
      if env key == "" then fallback else or_else fallback (parse_int (env key))

  -- `Load`
  unfoldable pub load : Config
  load =
      let backend = get_env "ANALYSIS_BACKEND" "openai" in
      let default_model = if backend == "openai" then "gpt-5.2" else "claude-opus-5" in
      record {
        port = get_env "PORT" "8080";
        storage_dir = get_env "STORAGE_DIR" "./data/captures";
        session_dir = get_env "SESSION_DIR" "./data/sessions";
        analysis_backend = backend;
        analysis_model = get_env "ANALYSIS_MODEL" default_model;
        anthropic_api_key = env "ANTHROPIC_API_KEY";
        openai_api_key = env "OPENAI_API_KEY";
        max_upload_bytes = get_env_int64 "MAX_UPLOAD_BYTES" default_max_upload_bytes;
        dev_mode = get_env_bool "DEV_MODE";
      }
