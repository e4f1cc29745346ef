-- ===== src/Http/Analyze/Assets.antt =====
-- The captures that AnalyzeAssets looks at.
use tuti_server.Base.{String, ◌≡◌, refl, ◌⊎◌, inl, inr, List, [], ◌∷◌, ◌++◌, arith}
use tuti_server.Errors.{Error, ok, err, Result-cases}
use tuti_server.Os.{Os}
use tuti_server.Storage
use tuti_server.Storage.{Object, LocalFs}
use tuti_server.Analysis.Provider.{Image}
use tuti_server.Http.{Response, go, stop}
use tuti_server.Http.Analyze.{load_images, asset_error}

module _ {D : Type 0} (os : Os D) (st : LocalFs D) where
  -- The images are the stored bytes and types of the captures, in order.
  abbrev pub AreLoaded : List String → List Image → Type 0
  AreLoaded [] [] = Unit
  AreLoaded (id ∷ ids) (img ∷ imgs) =
      (obj : Object) × (Storage.get os id st ≡ ok (obj, img.bytes))
      × (img.content_type ≡ obj.content_type)
      × AreLoaded ids imgs
  AreLoaded [] (img ∷ imgs) = ⊥
  AreLoaded (id ∷ ids) [] = ⊥

  abbrev pub StopsAt : List String → Response → Type 0
  StopsAt ids r =
      (before : List String) × (id : String) × (after : List String) × (e : Error) × (ids
        ≡ before ++ id ∷ after)
      × ((imgs : List Image) × AreLoaded before imgs)
      × (Storage.get os id st ≡ err e)
      × (r ≡ asset_error id e)

  -- The loop loads every capture, in order, or it answers for the first that does not load.
  pub load_images_outcome :
      (ids : List String)
      → ((imgs : List Image) × AreLoaded ids imgs × (load_images os st ids ≡ go imgs))
        ⊎ ((r : Response) × StopsAt ids r × (load_images os st ids ≡ stop r))
  unfolding load_images
  load_images_outcome [] = inl ([], tt, refl)
  load_images_outcome (id ∷ ids) = elim (Result-cases (Storage.get os id st)) [
    | inr (e, missing) ↦
        inr (asset_error id e, ([], id, ids, e, refl, ([], tt), missing, refl), ground arith)
    | inl (found, got) ↦
        let img : Image = record { bytes = found.1; content_type = found.0.content_type } in
        elim (load_images_outcome ids) [
          | inl (imgs, loaded, done) ↦
              inl (img ∷ imgs, (found.0, ground arith, refl, loaded), ground arith)
          | inr (r, (before, j, after, e, split, (imgs, loaded), missing, answer), stopped) ↦ inr (
            r,
            (
              id ∷ before,
              j,
              after,
              e,
              cc,
              (img ∷ imgs, (found.0, ground arith, refl, loaded)),
              missing,
              answer,
            ),
            ground arith,
          )
        ]
  ]
