-- ===== src/Base/Last.antt =====
-- The last part of a list, as the slice `s[len(s)-n:]` gives it, and what cutting keeps.
use Prim.Native.Nat.{ℕ, zero, suc, ◌+◌, ◌-◌, ◌≤◌}
use mathlib.Core.Path.{◌≡◌, refl, sym, ap, ◌∙◌, subst}
use mathlib.Core.List.{List, [], ◌∷◌, ◌++◌, map}
use mathlib.Core.Option.{some}
use native.Mathlib.Omega.{arith}
use tuti_server.Base.Lists.{length, drop, get_elem?, length-append, length-map, All}
use tuti_server.Base.Tests.{option_map}

module _ {ℓ} {A : Type ℓ} where
  -- All of a list that is shorter.
  abbrev pub last : ℕ → List A → List A
  last n xs = drop (length xs - n) xs

  length-drop : (k : ℕ) (xs : List A) → length (drop k xs) ≡ length xs - k
  length-drop zero xs = omega arith
  length-drop (suc k) [] = omega arith
  length-drop (suc k) (x ∷ xs) = omega (arith, length-drop k xs)

  drop-append : (k : ℕ) (xs ys : List A) → k ≤ length xs → drop k xs ++ ys ≡ drop k (xs ++ ys)
  drop-append zero xs ys h = refl
  drop-append (suc k) [] ys h = absurd (omega arith)
  drop-append (suc k) (x ∷ xs) ys h = drop-append k xs ys (omega arith)

  drop_nil : (k : ℕ) → ◌≡◌ {A = List A} (drop k []) []
  drop_nil zero = refl
  drop_nil (suc k) = refl

  drop_twice : (j k : ℕ) (xs : List A) → drop j (drop k xs) ≡ drop (k + j) xs
  drop_twice j zero xs = ap (λ n. drop n xs) (omega arith)
  drop_twice j (suc k) [] = drop_nil j ∙ sym (drop_nil (suc k + j))
  drop_twice j (suc k) (x ∷ xs) =
      let moved : suc (k + j) ≡ suc k + j = omega arith in
      drop_twice j k xs ∙ ap (λ n. drop n (x ∷ xs)) moved

  pub last_of_short : (n : ℕ) (xs : List A) → length xs ≤ n → last n xs ≡ xs
  last_of_short n xs h =
      let none_too_many : length xs - n ≡ 0 = omega arith in ap (λ k. drop k xs) none_too_many

  -- What has fallen out does not come back: cutting in between makes no difference.
  pub last-last_append : (n : ℕ) (xs ys : List A) → last n (last n xs ++ ys) ≡ last n (xs ++ ys)
  last-last_append n xs ys =
      let k = length xs - n in
      ap (λ zs. drop (length (drop k xs ++ ys) - n) zs) (drop-append k xs ys (omega arith))
      ∙ drop_twice (length (drop k xs ++ ys) - n) k (xs ++ ys)
      ∙ ap (λ m. drop m (xs ++ ys))
          (omega (arith, length-append (drop k xs) ys, length-append xs ys, length-drop k xs))

  pub length-last : (n : ℕ) (xs : List A) → length (last n xs) ≤ n
  length-last n xs = omega (arith, length-drop (length xs - n) xs)

  pub get_elem?-drop : (k i : ℕ) (xs : List A) → get_elem? (drop k xs) i ≡ get_elem? xs (k + i)
  get_elem?-drop zero i xs = ap (get_elem? xs) (omega arith)
  get_elem?-drop (suc k) i [] = refl
  get_elem?-drop (suc k) i (x ∷ xs) =
      let moved : suc k + i ≡ suc (k + i) = omega arith in
      get_elem?-drop k i xs ∙ ap (get_elem? (x ∷ xs)) (sym moved)

pub All-get_elem? {ℓ κ} :
    {A : Type ℓ} (P : A → Type κ) (xs : List A) (i : ℕ) (a : A)
    → All P xs
    → get_elem? xs i ≡ some a
    → P a
All-get_elem? P [] i a ps h = absurd (cc)
All-get_elem? P (x ∷ xs) zero a (p, ps) h = subst P (cc) p
All-get_elem? P (x ∷ xs) (suc i) a (p, ps) h = All-get_elem? P xs i a ps h

module _ {ℓ κ} {A : Type ℓ} {B : Type κ} (f : A → B) where
  map-drop : (k : ℕ) (xs : List A) → map f (drop k xs) ≡ drop k (map f xs)
  map-drop zero xs = refl
  map-drop (suc k) [] = refl
  map-drop (suc k) (x ∷ xs) = map-drop k xs

  pub map-last : (n : ℕ) (xs : List A) → map f (last n xs) ≡ last n (map f xs)
  map-last n xs =
      map-drop (length xs - n) xs ∙ ap (λ m. drop (m - n) (map f xs)) (sym (length-map f xs))

  pub get_elem?-map : (xs : List A) (i : ℕ) → get_elem? (map f xs) i ≡ option_map f (get_elem? xs i)
  get_elem?-map [] i = refl
  get_elem?-map (x ∷ xs) zero = refl
  get_elem?-map (x ∷ xs) (suc i) = get_elem?-map xs i
