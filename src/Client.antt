-- ===== src/Client.antt =====
-- The HTTP client of the terminal program: tuti-tui/internal/api/client.go and history.go. A client
-- stands before a network `W`, which is any type with the operations of `Net`.
pub mod Json
pub mod Wire
pub mod Rpc
pub mod History
pub mod Redaction
use tuti_server.Base.{
  ℕ, ◌-◌, String, Bool, true, false, List, [], ◌∷◌, ◌++◌, Option, none, some, length, drop, ltb,
  leb, ◌==◌, ◌&&◌, ◌||◌, if◌then◌else◌, Bytes,
}
use Prim.Native.String as S
use tuti_server.Errors.{Error, errorf, wrapf, str, bytes, Result, ok, err, M, throw}
use tuti_server.Client.Json.{JsonCodec, pretty_raw, pretty_raw_redacted}
use tuti_server.Client.Wire.{RequestBody}

-- What goes over the wire. A body that is nil is `none`; so is the deadline (in seconds) of a context
-- that has none.
pub record Request : Type 0 where
  pub method : String
  pub url : String
  pub body : Option Bytes
  pub content_type : Option String
  pub deadline : Option ℕ

-- What `http.Client.Do` and `io.ReadAll` give: no response, or its status line, its code, the bytes that
-- were read, and the error that stopped the reading.
pub data Outcome : Type 0 where
  no_response : Error → Outcome
  response : String → ℕ → Bytes → Option Error → Outcome

-- The network, the clock and the files that the client meets. `new_request` is the error of
-- `http.NewRequestWithContext` for a method and an address.
pub record Net (W : Type 0) : Type 0 where
  pub new_request : String → String → Option Error
  pub exchange : Request → W → Outcome × W
  pub now : W → ℕ
  pub read_file : String → W → Result Bytes

-- `encoding/json` on the types that the client sends and on the error that a server answers with
pub record Codec : Type 0 where
  pub json : JsonCodec
  pub marshal : RequestBody → Result Bytes
  pub unmarshal_error : Bytes → Result String

pub record HistoryEntry : Type 0 where
  pub rpc : String
  pub time : ℕ
  pub duration : ℕ
  pub request : Bytes
  pub response : Bytes
  pub status : String
  pub error : Option Error
  pub method : String
  pub path : String
  pub raw_request : Option Bytes

pub record Client (W : Type 0) : Type 0 where
  pub base_url : String
  pub history : List HistoryEntry
  pub world : W

-- `New`
unfoldable pub new : {W : Type 0} → String → W → Client W
new base_url world = record { base_url = base_url; history = []; world = world }

abbrev pub max_history_entries : ℕ
max_history_entries = 20

abbrev pub request_redact_threshold : ℕ
request_redact_threshold = 500

-- in seconds
abbrev pub replay_timeout : ℕ
replay_timeout = 60

abbrev pub short_timeout : ℕ
short_timeout = 10

abbrev pub bytes_or_nil : Option Bytes → Bytes
bytes_or_nil none = []
bytes_or_nil (some b) = b

is_error : Option Error → Bool
is_error none = false
is_error (some _) = true

-- What one round trip leaves: the variables `status`, `respBody` and `err` of `do`.
pub record Trip : Type 0 where
  pub status : String
  pub response : Bytes
  pub error : Option Error

result_of : Trip → Result Bytes
result_of t = elim (t.error) [ some e ↦ err e | none ↦ ok t.response ]

named_error : String → String → String → Bytes → Error
named_error op message status body =
    if message == ""
    then errorf "%s: unexpected status %s: %s" (str op ∷ str status ∷ bytes body ∷ [])
    else errorf "%s: %s (%s)" (str op ∷ str message ∷ str status ∷ [])

module _ (codec : Codec) where
  -- `apiError`
  unfoldable pub api_error : String → String → Bytes → Error
  unfolding named_error
  api_error op status body = elim (codec.unmarshal_error body) [
    | ok message ↦ named_error op message status body
    | err _ ↦ named_error op "" status body
  ]

  -- The part of `do` from `c.HTTP.Do` on
  unfoldable pub received : String → Outcome → Trip
  unfolding api_error
  received label (no_response e) = record { status = ""; response = []; error = some e }
  received label (response status code body (some e)) = record {
    status = status;
    response = body;
    error = some (wrapf "%s: reading response: %w" (str label ∷ []) e);
  }
  received label (response status code body none) = record {
    status = status;
    response = body;
    error = if leb 300 code then some (api_error label status body) else none;
  }

  module _ {W : Type 0} (net : Net W) where
    unfoldable pub send : String → Request → W → Trip × W
    unfolding received
    send label req w = elim (net.new_request req.method req.url) [
      | some e ↦ (record { status = ""; response = []; error = some e }, w)
      | none ↦ let (outcome, w') = net.exchange req w in (received label outcome, w')
    ]

    -- `recordHistory`, with the time that the round trip began at.
    unfoldable pub record_history :
        String → String → String → Option Bytes → Trip → ℕ → Client W → Client W
    unfolding is_error
    record_history method rpc path body t start c =
        let entry : HistoryEntry = record {
          rpc = rpc;
          time = net.now c.world;
          duration = net.now c.world - start;
          request = pretty_raw_redacted codec.json (bytes_or_nil body) request_redact_threshold;
          response = pretty_raw codec.json t.response;
          status = if is_error t.error && (t.status == "") then "error" else t.status;
          error = t.error;
          method = method;
          path = path;
          raw_request = body;
        } in
        let history = c.history ++ (entry ∷ []) in
        record c {
          history =
              if ltb max_history_entries (length history)
              then drop (length history - max_history_entries) history
              else history;
        }

    -- `do`: one round trip, recorded whatever its outcome
    unfoldable pub perform : String → String → String → Option Bytes → Option ℕ → M (Client W) Bytes
    unfolding send record_history result_of
    perform method label path body deadline c =
        let content_type : Option String = elim body [
          | none ↦ none
          | some _ ↦ some "application/json"
        ] in
        let req : Request = record {
          method = method;
          url = S.◌++◌ c.base_url path;
          body = body;
          content_type = content_type;
          deadline = deadline;
        } in
        let (t, w') = send label req c.world in
        (
          result_of t,
          record_history method label path body t (net.now c.world) (record c { world = w' }),
        )

    -- `Replay`
    unfoldable pub replay : HistoryEntry → M (Client W) Bytes
    unfolding perform
    replay e =
        if (e.method == "") || (e.path == "")
        then throw (errorf "replay: %s has no recorded request to resend" (str e.rpc ∷ []))
        else perform e.method e.rpc e.path e.raw_request (some replay_timeout)
