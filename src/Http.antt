-- ===== src/Http.antt =====
-- internal/httpapi: the requests, the responses, and how a handler stops early.
pub mod Image
pub mod Server
pub mod Captures
pub mod Snap
pub mod Analyze
pub mod Lessons
pub mod Routes
pub mod Refused
use tuti_server.Base.{
  ℕ, String, Bool, true, false, List, [], ◌∷◌, length, is_empty, ltb, if◌then◌else◌,
}
use tuti_server.Errors.{Error, Result, ok, err, M, Arg, errorf, wrapf, map_err, bind}
use tuti_server.Proto.{NextStep, Capture, AnalyzeAssetsResult, LessonContent}

abbrev pub Bytes : Type 0
Bytes = List ℕ

pub record SubmitSnapRequest : Type 0 where
  pub session_id : String
  pub bytes : Bytes
  pub filename : String

pub record SubmitSnapResponseRequest : Type 0 where
  pub session_id : String
  pub response_id : String

pub record UploadScreenshotRequest : Type 0 where
  pub bytes : Bytes
  pub filename : String

pub record AnalyzeAssetsRequest : Type 0 where
  pub session_id : String
  pub asset_ids : List String

pub record GetLessonContentRequest : Type 0 where
  pub lesson_id : String
  pub language : String

-- The text of `writeJSONError`: fixed, that of an error, or a format with its arguments.
pub data Message : Type 0 where
  said : String → Message
  shown : Error → Message
  formatted : String → List Arg → Message

-- What a response holds: a message of the proto, or the JSON that a handler writes itself.
pub data Body : Type 0 where
  failure : Message → Body
  started : (session_id : String) (next_step : NextStep) → Body
  next : NextStep → Body
  uploaded : Capture → Body
  listed : List Capture → Body
  session : (session_id : String) (created_at_ms : ℕ) → Body
  analyzed : AnalyzeAssetsResult → Body
  lesson : LessonContent → Body
  replied : String → Body
  health : Body
  empty : Body

pub record Response : Type 0 where
  pub status : ℕ
  pub body : Body

-- `writeJSONError`
unfoldable pub write_json_error : ℕ → Message → Response
write_json_error status message = record { status = status; body = failure message }

-- `writeProto`; `marshal` is `protojson.Marshal`, of which the handlers see whether it fails
unfoldable pub write_proto : (Body → Result Bytes) → ℕ → Body → Response
unfolding write_json_error
write_proto marshal status msg = elim (marshal msg) [
  | ok _ ↦ record { status = status; body = msg }
  | err _ ↦ write_json_error 500 (said "failed to encode response")
]

abbrev pub default_max_body_bytes : ℕ
default_max_body_bytes = 1048576

-- `io.ReadAll` behind `http.MaxBytesReader`; the body is what the connection gives
unfoldable pub read_all : ℕ → Result Bytes → Result Bytes
read_all max_bytes body =
    bind body (λ b.
      if ltb max_bytes (length b) then err (errorf "http: request body too large" []) else ok b)

-- `readProto`; `unmarshal` is `protojson.Unmarshal` into the empty message `zero`
unfoldable pub read_proto {ℓ} : {A : Type ℓ} → (Bytes → Result A) → A → ℕ → Result Bytes → Result A
unfolding read_all
read_proto unmarshal zero max_bytes body =
    bind (map_err (wrapf "request body too large or unreadable: %w" []) (read_all max_bytes body))
      (λ b.
        if is_empty b then ok zero else map_err (wrapf "invalid request body: %w" []) (unmarshal b))

-- A handler either has written its response and returns, or goes on.
pub data Flow (A : Type 0) : Type 0 where
  stop : Response → Flow A
  go : A → Flow A

abbrev pub H : Type 0 → Type 0 → Type 0
H S A = S → Flow A × S

abbrev pub continue : {S A B : Type 0} → Flow A → (A → H S B) → H S B
continue (stop r) f s = (stop r, s)
continue (go a) f s = f a s

infixl 5 ◌>>=◌ ◌>>◌
unfoldable pub ◌>>=◌ : {S A B : Type 0} → H S A → (A → H S B) → H S B
◌>>=◌ m f s = let (r, s') = m s in continue r f s'

unfoldable pub ◌>>◌ : {S B : Type 0} → H S (Unit {0}) → H S B → H S B
unfolding ◌>>=◌
m >> k = m >>= λ _. k

abbrev pub flow : {A : Type 0} → Result A → (Error → Response) → Flow A
flow (ok a) refuse = go a
flow (err e) refuse = stop (refuse e)

-- What the handler reads of the state.
abbrev pub look : {S A : Type 0} → (S → A) → H S A
look f s = (go (f s), s)

-- A loop that may have written a response goes on or returns.
abbrev pub settle : {S A : Type 0} → Flow A → H S A
settle r s = (r, s)

-- `if err != nil { write...; return }`
abbrev pub or_stop : {S A : Type 0} → Result A → (Error → Response) → H S A
or_stop r refuse s = (flow r refuse, s)

-- The same after a call that changes the state.
abbrev pub attempt : {S A : Type 0} → M S A → (Error → Response) → H S A
attempt m refuse s = let (r, s') = m s in (flow r refuse, s')

-- `if bad { write...; return }`
abbrev pub refuse_if : {S : Type 0} → Bool → Response → H S (Unit {0})
refuse_if true r s = (stop r, s)
refuse_if false r s = (go tt, s)

abbrev pub respond : {S : Type 0} → Response → H S Response
respond r s = (go r, s)

abbrev pub written : Flow Response → Response
written (stop r) = r
written (go r) = r

-- A handler as the mux sees it.
abbrev pub handled : {S : Type 0} → H S Response → S → Response × S
handled h s = let (r, s') = h s in (written r, s')

abbrev pub bad_request : Error → Response
bad_request e = record { status = 400; body = failure (shown e) }
