-- ===== src/Session/Ids.antt =====
-- The ids that `newID` draws are names: they have no separator.
use tuti_server.Base.{
  String, ◌≡◌, true, arith, encode_hex, is_plain, is_plain-append, is_plain-encode_hex,
}
use tuti_server.Errors.{Result, ok, err}
use tuti_server.Session.{Bytes, new_id}

pub new_id-is_plain :
    (prefix id : String) (rand : Result Bytes)
    → is_plain prefix ≡ true
    → new_id prefix rand ≡ ok id
    → is_plain id ≡ true
unfolding new_id
new_id-is_plain prefix id (ok b) p made =
    ground (arith, is_plain-append prefix (encode_hex b), is_plain-encode_hex b)
new_id-is_plain prefix id (err e) p made = absurd (ground arith)
