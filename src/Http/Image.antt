-- ===== src/Http/Image.antt =====
-- internal/httpapi/image.go: the type of an uploaded image.
pub mod Supported
use Prim.Native.Char.{Char, code}
use Prim.Native.String
use tuti_server.Base.{
  ℕ, String, Bool, true, false, List, [], ◌∷◌, ◌==◌, ◌&&◌, ◌||◌, not, eqb, if◌then◌else◌,
}
use tuti_server.Errors.{Result, ok, err, errorf, str}
use tuti_server.Catalog.Topics.{to_lower}
use tuti_server.Http.{Bytes}

-- `isSupportedImageType`
unfoldable pub is_supported_image_type : String → Bool
is_supported_image_type ct =
    ct == "image/jpeg" || ct == "image/png" || ct == "image/gif" || ct == "image/webp"

abbrev has_slash : String → Bool
has_slash String.[] = false
has_slash (String.◌∷◌ c s) = eqb (code c) b'/' || has_slash s

-- `filepath.Ext`: from the last dot of the last element on
unfoldable pub ext : String → String
ext String.[] = ""
ext (String.◌∷◌ c s) =
    let later = ext s in
    if not (later == "")
    then later
    else if eqb (code c) b'.' && not (has_slash s)
    then String.◌∷◌ c s
    else ""

-- `detect` is `http.DetectContentType`.
module _ (detect : Bytes → String) (unicode_lower : Char → Char) where
  -- `detectImageContentType`
  unfoldable pub detect_image_content_type : Bytes → String → Result String
  detect_image_content_type bytes filename =
      let ct = detect bytes in
      let e = to_lower unicode_lower (ext filename) in
      if is_supported_image_type ct
      then ok ct
      else if e == ".jpg" || e == ".jpeg"
      then ok "image/jpeg"
      else if e == ".png"
      then ok "image/png"
      else if e == ".gif"
      then ok "image/gif"
      else if e == ".webp"
      then ok "image/webp"
      else err (
          errorf
            "unsupported image type (detected %q from bytes, filename %q): expected jpeg, png, gif, or webp"
            (str ct ∷ str filename ∷ []))
