-- ===== src/Base/Decimal.antt =====
-- `%d` of `fmt.Sprintf` for a number that is not negative, and that two numbers are never written alike.
use Prim.Native.Nat.{ℕ, zero, suc, ◌+◌, ◌*◌, ◌-◌, ◌/◌, ◌%◌, ◌≤◌, ◌<◌}
use Prim.Native.Char.{Char, code}
use Prim.Native.String.{String, [], ◌∷◌, ◌++◌, char_at}
use mathlib.Core.Path.{◌≡◌, refl, ap, ◌∙◌}
use mathlib.Core.Logic.{inl, inr}
use mathlib.Core.Bool.{true, ◌&&◌}
use mathlib.Core.Option.{Option, none, some}
use native.Mathlib.Omega.{arith}
use text.Mathlib.TextLemmas.{nil-append, cons-append}
use tuti_server.Base.Tests.{ltb, leb, lt_of_ltb, le_of_ltb, if◌then◌else◌, Bool-cases}

abbrev digit : ℕ → Char
digit n = char_at "0123456789" n

-- The digits of a number below ten times ten to the power of the fuel.
digits : ℕ → ℕ → String
digits zero n = digit n ∷ []
digits (suc fuel) n =
    let more = digits fuel (n / 10) ++ (digit (n % 10) ∷ []) in
    if ltb n 10 then digit n ∷ [] else more

-- The fuel is the number itself, which has fewer digits.
unfoldable pub itoa : ℕ → String
unfolding digits
itoa n = digits n n

abbrev value : ℕ → String → ℕ
value acc [] = acc
value acc (c ∷ s) = value (acc * 10 + (code c - 48)) s

value-append :
    (s : String) (acc : ℕ) (c : Char) → value acc (s ++ (c ∷ [])) ≡ value acc s * 10 + (code c - 48)
value-append [] acc c = rw nil-append refl
value-append (d ∷ s) acc c = rw cons-append (value-append s (acc * 10 + (code d - 48)) c)

code-digit : (n : ℕ) → n < 10 → code (digit n) ≡ 48 + n
code-digit zero h = refl
code-digit (suc zero) h = refl
code-digit (suc (suc zero)) h = refl
code-digit (suc (suc (suc zero))) h = refl
code-digit (suc (suc (suc (suc zero)))) h = refl
code-digit (suc (suc (suc (suc (suc zero))))) h = refl
code-digit (suc (suc (suc (suc (suc (suc zero)))))) h = refl
code-digit (suc (suc (suc (suc (suc (suc (suc zero))))))) h = refl
code-digit (suc (suc (suc (suc (suc (suc (suc (suc zero)))))))) h = refl
code-digit (suc (suc (suc (suc (suc (suc (suc (suc (suc zero))))))))) h = refl
code-digit (suc (suc (suc (suc (suc (suc (suc (suc (suc (suc m)))))))))) h = absurd (omega arith)

value-digits : (fuel n : ℕ) → n ≤ fuel → value 0 (digits fuel n) ≡ n
unfolding digits
value-digits zero n h = omega (arith, code-digit n (omega arith))
value-digits (suc fuel) n h = elim (Bool-cases (ltb n 10)) [
  | inl small ↦ rw small (ground (arith, code-digit n))
  | inr large ↦ rw large (
      ground (
        arith,
        value-append (digits fuel (n / 10)) 0 (digit (n % 10)),
        value-digits fuel (n / 10),
        code-digit (n % 10),
      ))
]

pub itoa_injective : (a b : ℕ) → itoa a ≡ itoa b → a ≡ b
unfolding itoa
itoa_injective a b e = omega (arith, ap (value 0) e, value-digits a a, value-digits b b)

-- The digits of `strconv.ParseInt(s, 10, 64)`, read onto `acc`: nothing else may stand among them.
unfoldable pub parse_digits : ℕ → String → Option ℕ
parse_digits acc [] = some acc
parse_digits acc (c ∷ s) =
    let rest = parse_digits (acc * 10 + (code c - 48)) s in
    if leb 48 (code c) && leb (code c) 57 then rest else none

option_bind : Option ℕ → (ℕ → Option ℕ) → Option ℕ
option_bind none f = none
option_bind (some n) f = f n

parse_digits-append :
    (s : String) (acc : ℕ) (c : Char)
    → leb 48 (code c) && leb (code c) 57 ≡ true
    → parse_digits acc (s ++ (c ∷ []))
      ≡ option_bind (parse_digits acc s) (λ n. some (n * 10 + (code c - 48)))
unfolding parse_digits option_bind
parse_digits-append [] acc c h = rw nil-append (rw h refl)
parse_digits-append (d ∷ s) acc c h =
    rw cons-append (elim (Bool-cases (leb 48 (code d) && leb (code d) 57)) [
      | inl e ↦ rw e (parse_digits-append s (acc * 10 + (code d - 48)) c h)
      | inr e ↦ rw e refl
    ])

between : (n : ℕ) → n < 10 → leb 48 (48 + n) && leb (48 + n) 57 ≡ true
between n h = ground arith

digit_ok : (n : ℕ) → n < 10 → leb 48 (code (digit n)) && leb (code (digit n)) 57 ≡ true
digit_ok n h = rw (code-digit n h) (between n h)

parse_digits-digits : (fuel n : ℕ) → n ≤ fuel → parse_digits 0 (digits fuel n) ≡ some n
unfolding digits parse_digits option_bind
parse_digits-digits zero n h =
    rw (digit_ok n (omega arith)) (ap some (omega (arith, code-digit n (omega arith))))
parse_digits-digits (suc fuel) n h = elim (Bool-cases (ltb n 10)) [
  | inl small ↦
      let few = lt_of_ltb n 10 small in
      rw small (rw (digit_ok n few) (ap some (omega (arith, code-digit n few))))
  | inr large ↦
      let many = le_of_ltb n 10 large in
      rw large (
        parse_digits-append (digits fuel (n / 10)) 0 (digit (n % 10))
          (digit_ok (n % 10) (omega arith))
        ∙ ap (λ o. option_bind o (λ k. some (k * 10 + (code (digit (n % 10)) - 48))))
            (parse_digits-digits fuel (n / 10) (omega arith))
        ∙ ap some (omega (arith, code-digit (n % 10) (omega arith))))
]

-- `strconv.ParseInt` reads the digits that `%d` writes.
pub parse_digits-itoa : (n : ℕ) → parse_digits 0 (itoa n) ≡ some n
unfolding itoa
parse_digits-itoa n = parse_digits-digits n n (omega arith)

digits_cons : (fuel n : ℕ) → (c : Char) × (s : String) × (digits fuel n ≡ c ∷ s)
unfolding digits
digits_cons zero n = (digit n, [], refl)
digits_cons (suc fuel) n = elim (Bool-cases (ltb n 10)) [
  | inl small ↦ (digit n, [], rw small refl)
  | inr large ↦
      let (c, s, e) = digits_cons fuel (n / 10) in
      (c, s ++ (digit (n % 10) ∷ []), rw large (rw e (cons-append c s (digit (n % 10) ∷ []))))
]

pub itoa_cons : (n : ℕ) → (c : Char) × (s : String) × (itoa n ≡ c ∷ s)
unfolding itoa
itoa_cons n = digits_cons n n
