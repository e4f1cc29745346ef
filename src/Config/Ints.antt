-- ===== src/Config/Ints.antt =====
-- The numbers of the configuration: what is written is read.
use Prim.Native.Char.{Char, code}
use Prim.Native.String as S
use text.Mathlib.TextLemmas.{length-cons}
use tuti_server.Base.{
  ℕ, ◌-◌, ◌^◌, ◌<◌, ℤ, pos, String, ◌≡◌, refl, sym, ap, ◌∙◌, true, false, some, arith, itoa,
  itoa_cons, parse_digits, parse_digits-itoa, leb, eqb, ◌==◌, ◌&&◌, eq_iff, Bool-cases, inl, inr,
}
use tuti_server.Config.{in_range, unsigned, parse_int, or_else, get_env_int64}

leading_digit :
    (acc n : ℕ) (c : Char) (s : String)
    → parse_digits acc (S.◌∷◌ c s) ≡ some n
    → (leb 48 (code c) && leb (code c) 57) ≡ true
unfolding parse_digits
leading_digit acc n c s h = elim (Bool-cases (leb 48 (code c) && leb (code c) 57)) [
  | inl e ↦ e
  | inr e ↦ absurd (ground arith)
]

no_sign :
    (c : Char)
    → (leb 48 (code c) && leb (code c) 57) ≡ true
    → (eqb (code c) 45 ≡ false) × (eqb (code c) 43 ≡ false)
no_sign c h = ground arith

cons_nonempty : (c : Char) (s : String) → (S.◌∷◌ c s == "") ≡ false
cons_nonempty c s = elim (Bool-cases (S.◌∷◌ c s == "")) [
  | inl h ↦ absurd (omega (arith, ap S.count ((eq_iff (S.◌∷◌ c s) "").0 h), length-cons c s))
  | inr h ↦ h
]

fits : (n : ℕ) → n < 2 ^ 63 → leb n (2 ^ 63 - 1) ≡ true
fits n h = ground arith

parse_int-digits :
    (n : ℕ) (c : Char) (s : String)
    → n < 2 ^ 63
    → parse_digits 0 (S.◌∷◌ c s) ≡ some n
    → parse_int (S.◌∷◌ c s) ≡ some (pos n)
unfolding parse_int unsigned in_range
parse_int-digits n c s small h =
    let (not_minus, not_plus) = no_sign c (leading_digit 0 n c s h) in
    rw not_minus (rw not_plus (rw (cons_nonempty c s) (rw h (rw (fits n small) refl))))

-- A number that is written in decimal and fits into 63 bits is read as it is.
pub get_env_int64-itoa :
    (env : String → String) (key : String) (fallback : ℤ) (n : ℕ)
    → n < 2 ^ 63
    → env key ≡ itoa n
    → get_env_int64 env key fallback ≡ pos n
unfolding get_env_int64 or_else
get_env_int64-itoa env key fallback n small e =
    let (c, s, written) = itoa_cons n in
    rw (e ∙ written) (
      rw (cons_nonempty c s) (
        rw (parse_int-digits n c s small (ap (parse_digits 0) (sym written) ∙ parse_digits-itoa n))
          refl))
