-- ===== src/Tests/Client.antt =====
-- Runs of the client, on a network that answers every request.
use tuti_server.Base.{
  Bytes, ◌++◌, ℕ, suc, ◌+◌, ◌≡◌, ◌≢◌, refl, inr, String, false, List, [], ◌∷◌, map, none, some,
  arith, length, get_elem?, bytes_of, last, zero, ◌-◌, ◌==◌, eq_iff,
}
use tuti_server.Errors.{ok, err, errorf}
use tuti_server.Client.{
  Client, Codec, Net, response, HistoryEntry, new, perform, replay, record_history, api_error,
  received, send,
}
use tuti_server.Client.Json.{
  Json, text, number, object, field, no_fields, truncate_strings, redact_long_strings, cut, redact,
  redaction, edit_strings, pretty_raw, pretty_raw_redacted,
}
use tuti_server.Client.Json.Shown.{StringsFit, truncate_strings-StringsFit}
use tuti_server.Client.Json.Redacted.{AlikeFields, fields, both_empty, texts}
use tuti_server.Client.Redaction.{request_redacted}
use tuti_server.Client.History.{Sent, key, key_of, performs, history_of_run, replay_repeats}
use tuti_server.Terminal.Panel.{newest_first}
use tuti_server.Terminal.Panel.Shift.{selection_shifts}

client_run : Unit {0}
unfolding performs perform record_history api_error received send new pretty_raw pretty_raw_redacted
    truncate_strings redact_long_strings cut redact redaction edit_strings bytes_of
client_run = tt

-- The only JSON that this codec reads is an object with one long string.
abbrev pub codec : Codec
codec = record {
  json = record {
    unmarshal = λ b. ok (object (field (107 ∷ []) (text b) no_fields));
    marshal_indent = λ v. ok (123 ∷ 125 ∷ []);
  };
  marshal = λ r. ok (1 ∷ []);
  unmarshal_error = λ b. err (errorf "not JSON" []);
}

-- The world counts the requests; the second one is refused.
abbrev pub net : Net ℕ
net = record {
  new_request = λ method url. none;
  exchange = λ req n. (
    elim n [
      | suc zero ↦ response "503 Service Unavailable" 503 [] none
      | _ ↦ response "200 OK" 200 (7 ∷ []) none
    ],
    n + 1,
  );
  now = λ n. n;
  read_file = λ path n. ok (1 ∷ 2 ∷ []);
}

abbrev sent : List Sent
sent =
    record { method = "GET"; label = "Health"; path = "/healthz"; body = none; deadline = some 10 }
    ∷ record {
      method = "POST";
      label = "SubmitSnap";
      path = "/v1/SubmitSnap";
      body = some (1 ∷ []);
      deadline = some 10;
    }
    ∷ []

history_of_run_example :
    map key (performs codec net sent (new "http://localhost" 0)).history ≡ last 20 (map key_of sent)
history_of_run_example = history_of_run codec net "http://localhost" 0 sent

abbrev remembered : List HistoryEntry
remembered = (performs codec net sent (new "http://localhost" 0)).history

refused_entry : (e : HistoryEntry) × (get_elem? remembered 1 ≡ some e)
unfolding client_run
refused_entry = (_, refl)

text_ne : (a b : String) → a == b ≡ false → a ≢ b
text_ne a b h = λ e. ground (arith, eq_iff a b)

replay_repeats_example :
    (s : Sent) × (get_elem? sent (length sent - 20 + 1) ≡ some s)
    × (replay codec net refused_entry.0 (new "http://localhost" 5)
        ≡ perform codec net s.method s.label s.path s.body (some 60) (new "http://localhost" 5))
replay_repeats_example =
    replay_repeats codec net "http://localhost" 0 sent 1 refused_entry.0 (new "http://localhost" 5)
      (
        (text_ne "GET" "" refl, text_ne "/healthz" "" refl),
        ((text_ne "POST" "" refl, text_ne "/v1/SubmitSnap" "" refl), tt),
      )
      refused_entry.1

abbrev idle : Client ℕ
idle = record { base_url = "http://localhost"; history = []; world = 0 }

selection_shifts_example :
    get_elem?
      (newest_first (perform codec net "GET" "Health" "/healthz" none none idle).1.history)
      1
    ≡ get_elem? (newest_first idle.history) 0
selection_shifts_example =
    selection_shifts codec net "GET" "Health" "/healthz" none none idle 0 (omega arith)

abbrev shown : Json
shown = object (field (97 ∷ []) (text (1 ∷ 2 ∷ [])) (field (98 ∷ []) (number 3) no_fields))

truncate_strings-StringsFit_example :
    StringsFit 83 (truncate_strings shown)
    × (truncate_strings (truncate_strings shown) ≡ truncate_strings shown)
truncate_strings-StringsFit_example = truncate_strings-StringsFit shown

-- Two photos of 501 bytes each.
abbrev photo_of : ℕ → ℕ → Bytes
photo_of zero byte = []
photo_of (suc n) byte = byte ∷ photo_of n byte

photos_alike :
    AlikeFields 500
      (field (107 ∷ []) (text (photo_of 501 1)) no_fields)
      (field (107 ∷ []) (text (photo_of 501 2)) no_fields)
photos_alike = fields (107 ∷ []) (texts (inr (omega arith, refl))) both_empty

request_redacted_example :
    (e e' : HistoryEntry) × (earlier earlier' : List HistoryEntry) × ((perform codec net "POST"
        "UploadScreenshot" "/v1/UploadScreenshot"
        (some (photo_of 501 1))
        none
        (new "http://localhost" 0)).1.history
      ≡ earlier ++ (e ∷ []))
    × ((perform codec net "POST" "UploadScreenshot" "/v1/UploadScreenshot"
          (some (photo_of 501 2))
          none
          (new "http://localhost" 0)).1.history
        ≡ earlier' ++ (e' ∷ []))
    × (e.request ≡ 123 ∷ 125 ∷ [])
    × (e'.request ≡ 123 ∷ 125 ∷ [])
request_redacted_example =
    request_redacted codec net "POST" "UploadScreenshot" "/v1/UploadScreenshot" (photo_of 501 1)
      (photo_of 501 2) (123 ∷ 125 ∷ []) (field (107 ∷ []) (text (photo_of 501 1)) no_fields)
      (field (107 ∷ []) (text (photo_of 501 2)) no_fields) none (new "http://localhost" 0) refl refl
      refl refl photos_alike refl
