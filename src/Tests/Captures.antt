-- ===== src/Tests/Captures.antt =====
-- Runs of the capture store.
use Prim.Native.Char.{Char}
use tuti_server.Base.{String, ◌≡◌, ◌⊎◌, refl, List, [], ◌∷◌, ◌==◌, encode_hex, if◌then◌else◌}
use tuti_server.Errors.{ok}
use tuti_server.Dict
use tuti_server.Os.Ram.{Ram, ram, ram-IsOs}
use tuti_server.Storage
use tuti_server.Storage.{Object, LocalFs}
use tuti_server.Storage.Kept.{object_for, get-save, Upload, uploads}
use tuti_server.Storage.Order.{IsNewestFirst, list_sorted}
use mathlib.Core.List.{Perm}
use tuti_server.Analysis.Provider.{Image}
use tuti_server.Http.{Response, Bytes, go, stop}
use tuti_server.Http.Analyze.{load_images}
use tuti_server.Http.Analyze.Assets.{load_images_outcome, AreLoaded, StopsAt}
use tuti_server.Http.Image.{detect_image_content_type, is_supported_image_type, ext}
use tuti_server.Catalog.Topics.{to_lower}

captures_run : Unit {0}
unfolding Storage.save Storage.get Storage.new_id Storage.list Storage.newest_first Dict.get
    Dict.set Dict.empty uploads encode_hex detect_image_content_type is_supported_image_type ext
    to_lower
captures_run = tt

abbrev no_captures : LocalFs Ram
no_captures = record { disk = []; dir = "uploads" ∷ []; objects = Dict.empty }

abbrev photo : Upload
photo = record {
  name = "p.png";
  content_type = "image/png";
  bytes = 7 ∷ 8 ∷ [];
  rand = ok (1 ∷ []);
  now = 5;
}

abbrev stored : Object
stored = object_for "cap_01" "p.png" "image/png" (7 ∷ 8 ∷ []) 5

photo_saved :
    (Storage.save ram "p.png" "image/png" (7 ∷ 8 ∷ []) (ok (1 ∷ [])) 5 no_captures).0 ≡ ok stored
unfolding captures_run
photo_saved = refl

get-save_example :
    (stored ≡ object_for stored.id "p.png" "image/png" (7 ∷ 8 ∷ []) 5)
    × (Storage.get ram "cap_01"
          (Storage.save ram "p.png" "image/png" (7 ∷ 8 ∷ []) (ok (1 ∷ [])) 5 no_captures).1
        ≡ (if stored.id == "cap_01"
            then ok (stored, 7 ∷ 8 ∷ [])
            else Storage.get ram "cap_01" no_captures))
get-save_example =
    get-save ram ram-IsOs "p.png" "image/png" (7 ∷ 8 ∷ []) (ok (1 ∷ [])) 5 no_captures stored
      "cap_01" photo_saved

abbrev one_capture : LocalFs Ram
one_capture = uploads ram (photo ∷ []) no_captures

list_sorted_example :
    Perm (Storage.list one_capture) (Dict.values one_capture.objects)
    × IsNewestFirst (Storage.list one_capture)
list_sorted_example = list_sorted one_capture

load_images_outcome_example :
    ((imgs : List Image) × AreLoaded ram one_capture ("cap_01" ∷ "cap_02" ∷ []) imgs
      × (load_images ram one_capture ("cap_01" ∷ "cap_02" ∷ []) ≡ go imgs))
    ⊎ ((r : Response) × StopsAt ram one_capture ("cap_01" ∷ "cap_02" ∷ []) r
        × (load_images ram one_capture ("cap_01" ∷ "cap_02" ∷ []) ≡ stop r))
load_images_outcome_example = load_images_outcome ram one_capture ("cap_01" ∷ "cap_02" ∷ [])

abbrev sniff : Bytes → String
sniff bytes = "application/octet-stream"

abbrev same_char : Char → Char
same_char c = c

named_png : detect_image_content_type sniff same_char (7 ∷ []) "P.PNG" ≡ ok "image/png"
unfolding captures_run
named_png = refl
