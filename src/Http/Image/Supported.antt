-- ===== src/Http/Image/Supported.antt =====
-- The types that an upload can be stored with.
use Prim.Native.Char.{Char}
use tuti_server.Base.{String, ◌≡◌, true, refl, arith, ◌⊎◌, false}
use tuti_server.Errors.{ok}
use tuti_server.Http.{Bytes}
use tuti_server.Http.Image.{is_supported_image_type, detect_image_content_type}

all_supported :
    (is_supported_image_type "image/jpeg" ≡ true)
    × (is_supported_image_type "image/png" ≡ true)
    × (is_supported_image_type "image/gif" ≡ true)
    × (is_supported_image_type "image/webp" ≡ true)
unfolding is_supported_image_type
all_supported = (refl, refl, refl, refl)

-- A detected type is one that the providers accept; it is the sniffed type, unless that is not accepted.
pub detect-is_supported :
    (detect : Bytes → String) (unicode_lower : Char → Char) (bytes : Bytes) (filename ct : String)
    → detect_image_content_type detect unicode_lower bytes filename ≡ ok ct
    → (is_supported_image_type ct ≡ true)
      × ((ct ≡ detect bytes) ⊎ (is_supported_image_type (detect bytes) ≡ false))
unfolding detect_image_content_type
detect-is_supported detect unicode_lower bytes filename ct found =
    let (jpeg, png, gif, webp) = all_supported in (ground arith, ground arith)
