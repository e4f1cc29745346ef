-- ===== src/Errors.antt =====
-- Go's `error` values as the repository builds them, and functions that return one.
use tuti_server.Base.{
  ℕ, ℤ, String, Bytes, Bool, true, false, List, ◌≡◌, refl, ◌⊎◌, inl, inr, Option, none, some,
}

-- The sentinels: `ErrNotFound` and `ErrWrongStep` of internal/session/session.go, `ErrNotFound` of
-- internal/storage/storage.go, and `os.ErrNotExist`.
pub data Sentinel : Type 0 where
  session_not_found wrong_step storage_not_found not_exist : Sentinel

-- An argument of `fmt.Errorf`.
pub data Arg : Type 0 where
  str : String → Arg
  num : ℕ → Arg
  int : ℤ → Arg
  bytes : Bytes → Arg

-- `errorf` has no `%w` verb in its format, `wrapf` has one, for the error that it holds. Formats are
-- kept with their arguments and not expanded.
pub data Error : Type 0 where
  sentinel : Sentinel → Error
  errorf : String → List Arg → Error
  wrapf : String → List Arg → Error → Error

abbrev same_sentinel : Sentinel → Sentinel → Bool
same_sentinel session_not_found session_not_found = true
same_sentinel wrong_step wrong_step = true
same_sentinel storage_not_found storage_not_found = true
same_sentinel not_exist not_exist = true
same_sentinel _ _ = false

-- `errors.Is(err, target)` for a sentinel target
abbrev pub errors_is : Error → Sentinel → Bool
errors_is (sentinel s) target = same_sentinel s target
errors_is (errorf f args) target = false
errors_is (wrapf f args e) target = errors_is e target

pub data Result {ℓ} (A : Type ℓ) : Type ℓ where
  ok : A → Result A
  err : Error → Result A

abbrev pub map_err {ℓ} : {A : Type ℓ} → (Error → Error) → Result A → Result A
map_err f (ok a) = ok a
map_err f (err e) = err (f e)

abbrev pub to_option {ℓ} : {A : Type ℓ} → Result A → Option A
to_option (ok a) = some a
to_option (err e) = none

abbrev pub bind {ℓ κ} : {A : Type ℓ} {B : Type κ} → Result A → (A → Result B) → Result B
bind (ok a) f = f a
bind (err e) f = err e

-- A method that changes the state `S` and returns a value or an error. A failure keeps the changes
-- made before it.
abbrev pub M : Type 0 → Type 0 → Type 0
M S A = S → Result A × S

abbrev pub and_then : {S A B : Type 0} → Result A → (A → M S B) → M S B
and_then (ok a) f s = f a s
and_then (err e) f s = (err e, s)

infixl 5 ◌>>=◌ ◌>>◌
abbrev pub ◌>>=◌ : {S A B : Type 0} → M S A → (A → M S B) → M S B
◌>>=◌ m f s = let (r, s') = m s in and_then r f s'

abbrev pub ◌>>◌ : {S B : Type 0} → M S (Unit {0}) → M S B → M S B
m >> k = m >>= λ _. k

abbrev pub return : {S A : Type 0} → A → M S A
return a s = (ok a, s)

abbrev pub throw : {S A : Type 0} → Error → M S A
throw e s = (err e, s)

-- A value that was computed, or an error, without touching the state.
abbrev pub lift : {S A : Type 0} → Result A → M S A
lift r s = (r, s)

-- Go's `if !test { return err }`.
abbrev pub guard : {S : Type 0} → Bool → Error → M S (Unit {0})
guard true e s = (ok tt, s)
guard false e s = (err e, s)

-- `if err := m; err != nil { return fmt.Errorf("...%w", err) }`
abbrev pub wrapping : {S A : Type 0} → (Error → Error) → M S A → M S A
wrapping f m s = let (r, s') = m s in (map_err f r, s')

abbrev pub or_fail {ℓ} : {A : Type ℓ} → Option A → Error → Result A
or_fail none e = err e
or_fail (some a) e = ok a

pub Result-cases {ℓ} :
    {A : Type ℓ} (r : Result A) → ((a : A) × (r ≡ ok a)) ⊎ ((e : Error) × (r ≡ err e))
Result-cases (ok a) = inl (a, refl)
Result-cases (err e) = inr (e, refl)
