-- ===== src/Base/Text.antt =====
-- Texts: `strings.TrimSuffix` and `hex.EncodeToString`, and what their callers rely on.
use Prim.Native.Nat.{ℕ, ◌<◌, zero, suc, ◌-◌, ◌/◌, ◌%◌, compare, Ordering, lt, eq, gt}
use Prim.Native.Char.{Char, code, len_utf8}
use Prim.Native.String.{String, [], ◌∷◌, ◌++◌, char_at, count, past}
use Prim.Native.String.char_at as at
use mathlib.Core.Path.{◌≡◌, refl, ap}
use mathlib.Core.Bool.{Bool, true, false, not, ◌&&◌, ◌||◌}
use mathlib.Core.List as L
use mathlib.Core.List.{List}
use mathlib.Core.Logic.{inl, inr}
use native.Mathlib.Omega.{arith}
use text.Mathlib.Text.{◌==◌}
use text.Mathlib.TextEquality.{eq_iff}
use text.Mathlib.TextPositions.{eq_refl}
use text.Mathlib.TextLemmas.{length-append, length-cons, nil-append, cons-append}
use tuti_server.Base.Tests.{if◌then◌else◌, Bool-cases, eqb}

-- `strings.TrimSuffix`
unfoldable pub trim_suffix : String → String → String
trim_suffix [] t = []
trim_suffix (c ∷ s) t = let rest = trim_suffix s t in if (c ∷ s) == t then [] else c ∷ rest

-- `hex.EncodeToString`, over the bytes' numbers
abbrev pub hex_digit : ℕ → Char
hex_digit n = char_at "0123456789abcdef" n

unfoldable pub encode_hex : List ℕ → String
encode_hex L.[] = ""
encode_hex (L.◌∷◌ b bs) = hex_digit (b / 16) ∷ hex_digit (b % 16) ∷ encode_hex bs

trim_suffix_self : (t : String) → trim_suffix t t ≡ ""
unfolding trim_suffix
trim_suffix_self [] = refl
trim_suffix_self (c ∷ s) = rw eq_refl

longer_ne : (c : Char) (s t : String) → (c ∷ (s ++ t)) == t ≡ true → ⊥
longer_ne c s t h =
    omega
      (arith, ap count ((eq_iff (c ∷ (s ++ t)) t).0 h), length-cons c (s ++ t), length-append s t)

-- What `filestore.List` strips is the suffix that `filestore.path` has put on.
pub trim_suffix-append : (s t : String) → trim_suffix (s ++ t) t ≡ s
unfolding trim_suffix
trim_suffix-append [] t = rw nil-append (trim_suffix_self t)
trim_suffix-append (c ∷ s) t = rw cons-append (elim (Bool-cases ((c ∷ (s ++ t)) == t)) [
  | inl h ↦ absurd (longer_ne c s t h)
  | inr h ↦ rw h (ap (◌∷◌ c) (trim_suffix-append s t))
])

-- A text with no '/' in it, which is one part of a path
unfoldable pub is_plain : String → Bool
is_plain [] = true
is_plain (c ∷ s) = let rest = is_plain s in if eqb (code c) 47 then false else rest

-- A text that is one part of a path and names something in the directory before it
abbrev pub is_name : String → Bool
is_name s = is_plain s && not (s == "" || s == "." || s == "..")

-- `strings.Split(s, "/")`
push_char : Char → List String → List String
push_char c L.[] = L.◌∷◌ (c ∷ []) L.[]
push_char c (L.◌∷◌ x xs) = L.◌∷◌ (c ∷ x) xs

unfoldable pub parts : String → List String
unfolding push_char
parts [] = L.◌∷◌ [] L.[]
parts (c ∷ s) = let rest = parts s in if eqb (code c) 47 then L.◌∷◌ [] rest else push_char c rest

pub parts_plain : (s : String) → is_plain s ≡ true → parts s ≡ L.◌∷◌ s L.[]
unfolding parts is_plain push_char
parts_plain [] h = refl
parts_plain (c ∷ s) h = elim (Bool-cases (eqb (code c) 47)) [
  | inl e ↦ absurd (ground (arith))
  | inr e ↦ rw e (rw (parts_plain s (ground (arith))) refl)
]

pub is_plain-append : (s t : String) → is_plain (s ++ t) ≡ (is_plain s && is_plain t)
unfolding is_plain
is_plain-append [] t = rw nil-append refl
is_plain-append (c ∷ s) t = rw cons-append (ground (arith, is_plain-append s t))

long_ne : (s t : String) → count t < count s → (s == t) ≡ false
long_ne s t h = elim (Bool-cases (s == t)) [
  | inl e ↦ absurd (omega (arith, ap count ((eq_iff s t).0 e)))
  | inr e ↦ e
]

-- The name of a file with a suffix is no special part of a path.
pub is_name-json : (s : String) → is_plain s ≡ true → is_name (s ++ ".json") ≡ true
unfolding is_plain
is_name-json s h = ground (
  arith,
  is_plain-append s ".json",
  long_ne (s ++ ".json") "" (omega (arith, length-append s ".json")),
  long_ne (s ++ ".json") "." (omega (arith, length-append s ".json")),
  long_ne (s ++ ".json") ".." (omega (arith, length-append s ".json")),
)

pub trim_suffix-plain : (s t : String) → is_plain s ≡ true → is_plain (trim_suffix s t) ≡ true
unfolding trim_suffix is_plain
trim_suffix-plain [] t h = refl
trim_suffix-plain (c ∷ s) t h = elim (Bool-cases ((c ∷ s) == t)) [
  | inl e ↦ rw e refl
  | inr e ↦ rw e (ground (arith, trim_suffix-plain s t))
]

plain_past : (o : Ordering) (c : Char) → eqb (code c) 47 ≡ false → eqb (code (past o c)) 47 ≡ false
plain_past lt c h = refl
plain_past eq c h = h
plain_past gt c h = h

plain_at : (s : String) (n : ℕ) → is_plain s ≡ true → eqb (code (char_at s n)) 47 ≡ false
unfolding is_plain
plain_at [] n h = rw (at.nil n) refl
plain_at (c ∷ s) zero h = rw (at.cons-zero c s) (ground arith)
plain_at (c ∷ s) (suc n) h = rw (at.cons-suc c s n) (
    plain_past (compare (suc n) (len_utf8 c)) (char_at s (suc n - len_utf8 c))
      (plain_at s (suc n - len_utf8 c) (ground arith)))

plain_digit : (n : ℕ) → eqb (code (hex_digit n)) 47 ≡ false
unfolding is_plain
plain_digit n = plain_at "0123456789abcdef" n refl

pub is_plain-encode_hex : (bs : List ℕ) → is_plain (encode_hex bs) ≡ true
unfolding is_plain encode_hex
is_plain-encode_hex L.[] = refl
is_plain-encode_hex (L.◌∷◌ b bs) =
    rw (plain_digit (b / 16)) (rw (plain_digit (b % 16)) (is_plain-encode_hex bs))
