-- ===== src/Client/Json.antt =====
-- How request and response bodies are shown: tuti-tui/internal/api/pretty.go.
pub mod Shown
pub mod Redacted
use tuti_server.Base.{
  ℕ, Bool, true, false, List, [], ◌∷◌, ◌++◌, Option, none, some, length, ltb, if◌then◌else◌, Bytes,
  bytes_of, take, itoa, is_empty,
}
use tuti_server.Errors.{Result, ok, err}

-- What `json.Unmarshal` makes of a body: an `any`, in Go's types for it. A float64 is kept by its bits.
mutual
  pub data Json : Type 0 where
    null : Json
    boolean : Bool → Json
    number : ℕ → Json
    text : Bytes → Json
    array : Items → Json
    object : Fields → Json

  pub data Items : Type 0 where
    no_items : Items
    item : Json → Items → Items

  pub data Fields : Type 0 where
    no_fields : Fields
    field : Bytes → Json → Fields → Fields

-- `encoding/json` on such values
pub record JsonCodec : Type 0 where
  pub unmarshal : Bytes → Result Json
  pub marshal_indent : Json → Result Bytes

-- The string that `f` puts in the place of a value, if the value is a string that it replaces.
abbrev pub replaced : (Bytes → Option Bytes) → Json → Option Bytes
replaced f (text s) = f s
replaced f _ = none

abbrev pub or_text : Option Bytes → Json → Json
or_text none v = v
or_text (some s) v = text s

-- The walk of `truncateStrings` and `redactLongStrings`: a string in a map or a slice is replaced, any
-- other value there is walked in turn. The string at the top is nobody's element and stays.
unfoldable mutual
  pub edit_strings : (Bytes → Option Bytes) → Json → Json
  edit_strings f (array xs) = array (edit_items f xs)
  edit_strings f (object xs) = object (edit_fields f xs)
  edit_strings f v = v

  pub edit_items : (Bytes → Option Bytes) → Items → Items
  edit_items f no_items = no_items
  edit_items f (item v rest) = item (or_text (replaced f v) (edit_strings f v)) (edit_items f rest)

  pub edit_fields : (Bytes → Option Bytes) → Fields → Fields
  edit_fields f no_fields = no_fields
  edit_fields f (field k v rest) =
      field k (or_text (replaced f v) (edit_strings f v)) (edit_fields f rest)

abbrev pub max_display_string_len : ℕ
max_display_string_len = 80

unfoldable pub cut : Bytes → Option Bytes
cut s =
    if ltb max_display_string_len (length s)
    then some (take max_display_string_len s ++ bytes_of "...")
    else none

unfoldable pub truncate_strings : Json → Json
truncate_strings = edit_strings cut

-- `fmt.Sprintf("[redacted: %d chars]", n)`
unfoldable pub redaction : ℕ → Bytes
redaction n = bytes_of "[redacted: " ++ bytes_of (itoa n) ++ bytes_of " chars]"

unfoldable pub redact : ℕ → Bytes → Option Bytes
redact max_len s = if ltb max_len (length s) then some (redaction (length s)) else none

unfoldable pub redact_long_strings : ℕ → Json → Json
redact_long_strings max_len = edit_strings (redact max_len)

or_raw : Result Bytes → Bytes → Bytes
or_raw (ok out) data' = out
or_raw (err _) data' = data'

module _ (codec : JsonCodec) where
  indented : (Json → Json) → Result Json → Bytes → Bytes
  unfolding or_raw
  indented edit (ok v) body = or_raw (codec.marshal_indent (edit v)) body
  indented edit (err _) body = body

  -- `PrettyRaw`
  unfoldable pub pretty_raw : Bytes → Bytes
  unfolding indented
  pretty_raw body =
      if is_empty body
      then bytes_of "(empty)"
      else indented truncate_strings (codec.unmarshal body) body

  -- `PrettyRawRedacted`
  unfoldable pub pretty_raw_redacted : Bytes → ℕ → Bytes
  unfolding indented
  pretty_raw_redacted body max_len =
      if is_empty body
      then bytes_of "(empty)"
      else indented (redact_long_strings max_len) (codec.unmarshal body) body
