-- ===== src/Http/Captures.antt =====
-- internal/httpapi/captures.go
use tuti_server.Base.{ℕ, ◌/◌, List, [], ◌∷◌, is_empty}
use tuti_server.Errors.{Result, ok, bind}
use tuti_server.Proto.{Capture}
use tuti_server.Os.{Os}
use tuti_server.Storage
use tuti_server.Storage.{Object, LocalFs}
use tuti_server.Http.{
  Bytes, Response, H, look, ◌>>=◌, ◌>>◌, or_stop, attempt, refuse_if, respond, bad_request,
  read_proto, write_proto, write_json_error, said, uploaded, listed,
}
use tuti_server.Http.Image.{detect_image_content_type}
use tuti_server.Http.Server.{Server, Outside, Env, on_captures}

-- `time.Time.UnixMilli`, of a time in nanoseconds
abbrev pub unix_milli : ℕ → ℕ
unix_milli t = t / 1000000

abbrev pub capture_of : Object → Bytes → Capture
capture_of obj bytes = record {
  id = obj.id;
  name = obj.name;
  bytes = bytes;
  uploaded_at_ms = unix_milli obj.uploaded_at;
}

-- The loop of `handleListCaptures`.
unfoldable pub load_captures : {D : Type 0} → Os D → LocalFs D → List Object → Result (List Capture)
load_captures os st [] = ok []
load_captures os st (obj ∷ objs) =
    bind (Storage.get os obj.id st)
      λ found. bind (load_captures os st objs) λ rest. ok (capture_of obj found.1 ∷ rest)

module _ {S D : Type 0} (o : Outside S D) (env : Env) where
  -- `handleUploadScreenshot`
  unfoldable pub handle_upload_screenshot : Result Bytes → H (Server S D) Response
  unfolding write_json_error
  handle_upload_screenshot body = do
    limit ← look (λ s. s.max_upload_bytes)
    req ←
        or_stop (read_proto o.unmarshal_upload (record { bytes = []; filename = "" }) limit body)
          bad_request
    refuse_if (is_empty req.bytes) (write_json_error 400 (said "data is required"))
    content_type ←
        or_stop (detect_image_content_type o.detect o.unicode_lower req.bytes req.filename)
          bad_request
    obj ←
        attempt
          (on_captures (Storage.save o.os req.filename content_type req.bytes env.rand env.now))
          (λ _. write_json_error 500 (said "failed to store upload"))
    respond (write_proto o.marshal 201 (uploaded (capture_of obj req.bytes)))

  -- `handleListCaptures`
  unfoldable pub handle_list_captures : Result Bytes → H (Server S D) Response
  unfolding write_json_error
  handle_list_captures body = do
    loaded ← look (λ s. load_captures o.os s.captures (Storage.list s.captures))
    captures ← or_stop loaded (λ _. write_json_error 500 (said "failed to load capture"))
    respond (write_proto o.marshal 200 (listed captures))
