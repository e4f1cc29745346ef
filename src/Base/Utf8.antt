-- ===== src/Base/Utf8.antt =====
-- Go's strings as the bytes that they are: the UTF-8 of a text, `s[:n]`, `strings.Split` on one byte
-- and `strings.Join`.
use Prim.Native.Nat.{ℕ, zero, suc, ◌+◌, ◌/◌, ◌%◌, ◌≤◌}
use Prim.Native.Char.{code}
use Prim.Native.String as S
use Prim.Native.String.{String}
use mathlib.Core.Path.{◌≡◌, refl, ap}
use mathlib.Core.List.{List, [], ◌∷◌, ◌++◌}
use native.Mathlib.Omega.{arith}
use tuti_server.Base.Tests.{ltb, eqb, if◌then◌else◌}
use tuti_server.Base.Lists.{length}

abbrev pub Bytes : Type 0
Bytes = List ℕ

-- The bytes of the character with a code.
utf8 : ℕ → Bytes
utf8 n =
    if ltb n 128
    then n ∷ []
    else if ltb n 2048
    then (192 + n / 64) ∷ (128 + n % 64) ∷ []
    else if ltb n 65536
    then (224 + n / 4096) ∷ (128 + n / 64 % 64) ∷ (128 + n % 64) ∷ []
    else (240 + n / 262144) ∷ (128 + n / 4096 % 64) ∷ (128 + n / 64 % 64) ∷ (128 + n % 64) ∷ []

unfoldable pub bytes_of : String → Bytes
unfolding utf8
bytes_of S.[] = []
bytes_of (S.◌∷◌ c s) = utf8 (code c) ++ bytes_of s

abbrev pub take {ℓ} : {A : Type ℓ} → ℕ → List A → List A
take zero xs = []
take (suc n) [] = []
take (suc n) (x ∷ xs) = x ∷ take n xs

-- `strings.Split(s, sep)` for a separator of one byte. `line` is what has been read of the part at hand.
unfoldable split_from : ℕ → Bytes → Bytes → List Bytes
split_from sep line [] = line ∷ []
split_from sep line (b ∷ s) =
    if eqb b sep then line ∷ split_from sep [] s else split_from sep (line ++ (b ∷ [])) s

unfoldable pub split : ℕ → Bytes → List Bytes
unfolding split_from
split sep s = split_from sep [] s

-- `strings.Join`
unfoldable pub join : Bytes → List Bytes → Bytes
join sep [] = []
join sep (x ∷ []) = x
join sep (x ∷ y ∷ rest) = x ++ sep ++ join sep (y ∷ rest)

module _ {ℓ} {A : Type ℓ} where
  pub length-take : (n : ℕ) (xs : List A) → length (take n xs) ≤ n
  length-take zero xs = omega arith
  length-take (suc n) [] = omega arith
  length-take (suc n) (x ∷ xs) = omega (arith, length-take n xs)

  -- What stands behind a part that is long enough does not count.
  pub take-append : (n : ℕ) (xs ys : List A) → n ≤ length xs → take n (xs ++ ys) ≡ take n xs
  take-append zero xs ys h = refl
  take-append (suc n) [] ys h = absurd (omega arith)
  take-append (suc n) (x ∷ xs) ys h = ap (◌∷◌ x) (take-append n xs ys (omega arith))

  pub cut_twice : (n : ℕ) (xs : List A) → take n (take n xs) ≡ take n xs
  cut_twice zero xs = refl
  cut_twice (suc n) [] = refl
  cut_twice (suc n) (x ∷ xs) = ap (◌∷◌ x) (cut_twice n xs)

  pub length-take_eq : (n : ℕ) (xs : List A) → n ≤ length xs → length (take n xs) ≡ n
  length-take_eq zero xs h = refl
  length-take_eq (suc n) [] h = absurd (omega arith)
  length-take_eq (suc n) (x ∷ xs) h = ap suc (length-take_eq n xs (omega arith))
