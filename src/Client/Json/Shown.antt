-- ===== src/Client/Json/Shown.antt =====
-- What is shown of a body: no long string, and of a long parameter of a request its length alone.
use tuti_server.Base.{
  ℕ, ◌+◌, ◌≤◌, ◌≡◌, refl, ap, ◌∙◌, ◌++◌, length, length-append, arith, ltb, if◌then◌else◌, Bytes,
  bytes_of, take, length-take, length-take_eq, take-append, cut_twice, Bool-cases, lt_of_ltb,
  le_of_ltb, inl, inr,
}
use tuti_server.Client.Json.{
  Json, null, boolean, number, text, array, object, Items, no_items, item, Fields, no_fields, field,
  edit_strings, edit_items, edit_fields, or_text, cut, truncate_strings,
}

-- The string at the top of a value fits too, if the value is a string.
abbrev pub Fits : ℕ → Json → Type 0
Fits n (text s) = length s ≤ n
Fits n _ = Unit

-- Every string in a map or a slice, at any depth, has at most `n` bytes.
mutual
  pub StringsFit : ℕ → Json → Type 0
  StringsFit n (array xs) = ItemsFit n xs
  StringsFit n (object xs) = FieldsFit n xs
  StringsFit n _ = Unit

  pub ItemsFit : ℕ → Items → Type 0
  ItemsFit n no_items = Unit
  ItemsFit n (item v rest) = Fits n v × StringsFit n v × ItemsFit n rest

  pub FieldsFit : ℕ → Fields → Type 0
  FieldsFit n no_fields = Unit
  FieldsFit n (field k v rest) = Fits n v × StringsFit n v × FieldsFit n rest

length-take_append : (n : ℕ) (s t : Bytes) → length (take n s ++ t) ≤ n + length t
length-take_append n s t = omega (arith, length-append (take n s) t, length-take n s)

take-take_append :
    (n : ℕ) (s t : Bytes) → n ≤ length s → take n (take n s ++ t) ++ t ≡ take n s ++ t
take-take_append n s t h =
    ap (λ x. x ++ t)
      (take-append n (take n s) t (omega (arith, length-take_eq n s h)) ∙ cut_twice n s)

-- What `truncateStrings` leaves in the place of a string.
shown : Bytes → Bytes
unfolding bytes_of
shown s = if ltb 80 (length s) then take 80 s ++ bytes_of "..." else s

or_text-cut : (s : Bytes) → or_text (cut s) (text s) ≡ text (shown s)
unfolding cut shown
or_text-cut s = elim (Bool-cases (ltb 80 (length s))) [
  | inl long ↦ rw long refl
  | inr short ↦ rw short refl
]

shown_fits : (s : Bytes) → length (shown s) ≤ 83
unfolding shown bytes_of
shown_fits s = elim (Bool-cases (ltb 80 (length s))) [
  | inl long ↦ rw long (length-take_append 80 s (bytes_of "..."))
  | inr short ↦ rw short (omega (arith, le_of_ltb 80 (length s) short))
]

shown_again : (s : Bytes) → shown (shown s) ≡ shown s
unfolding shown bytes_of
shown_again s = elim (Bool-cases (ltb 80 (length s))) [
  | inl long ↦ rw long (elim (Bool-cases (ltb 80 (length (take 80 s ++ bytes_of "...")))) [
    | inl h ↦
        rw h (take-take_append 80 s (bytes_of "...") (omega (arith, lt_of_ltb 80 (length s) long)))
    | inr h ↦ rw h refl
  ])
  | inr short ↦ rw short (rw short refl)
]

mutual
  unfolding edit_strings

  edit_again : (v : Json) → edit_strings cut (edit_strings cut v) ≡ edit_strings cut v
  edit_again (array xs) = ap array (items_again xs)
  edit_again (object xs) = ap object (fields_again xs)
  edit_again null = refl
  edit_again (boolean b) = refl
  edit_again (number n) = refl
  edit_again (text s) = refl

  items_again : (xs : Items) → edit_items cut (edit_items cut xs) ≡ edit_items cut xs
  items_again no_items = refl
  items_again (item (text s) xs) = rw (or_text-cut s) (
      rw (or_text-cut (shown s)) (rw (shown_again s) (ap (item (text (shown s))) (items_again xs))))
  items_again (item (array ys) xs) = cc (items_again xs, items_again ys)
  items_again (item (object ys) xs) = cc (items_again xs, fields_again ys)
  items_again (item null xs) = ap (item null) (items_again xs)
  items_again (item (boolean b) xs) = ap (item (boolean b)) (items_again xs)
  items_again (item (number n) xs) = ap (item (number n)) (items_again xs)

  fields_again : (xs : Fields) → edit_fields cut (edit_fields cut xs) ≡ edit_fields cut xs
  fields_again no_fields = refl
  fields_again (field k (text s) xs) = rw (or_text-cut s) (
      rw (or_text-cut (shown s))
        (rw (shown_again s) (ap (field k (text (shown s))) (fields_again xs))))
  fields_again (field k (array ys) xs) = cc (fields_again xs, items_again ys)
  fields_again (field k (object ys) xs) = cc (fields_again xs, fields_again ys)
  fields_again (field k null xs) = ap (field k null) (fields_again xs)
  fields_again (field k (boolean b) xs) = ap (field k (boolean b)) (fields_again xs)
  fields_again (field k (number n) xs) = ap (field k (number n)) (fields_again xs)

mutual
  unfolding edit_strings StringsFit

  edit_fits : (v : Json) → StringsFit 83 (edit_strings cut v)
  edit_fits (array xs) = items_fit xs
  edit_fits (object xs) = fields_fit xs
  edit_fits null = tt
  edit_fits (boolean b) = tt
  edit_fits (number n) = tt
  edit_fits (text s) = tt

  items_fit : (xs : Items) → ItemsFit 83 (edit_items cut xs)
  items_fit no_items = tt
  items_fit (item (text s) xs) = rw (or_text-cut s) (shown_fits s, tt, items_fit xs)
  items_fit (item (array ys) xs) = (tt, items_fit ys, items_fit xs)
  items_fit (item (object ys) xs) = (tt, fields_fit ys, items_fit xs)
  items_fit (item null xs) = (tt, tt, items_fit xs)
  items_fit (item (boolean b) xs) = (tt, tt, items_fit xs)
  items_fit (item (number n) xs) = (tt, tt, items_fit xs)

  fields_fit : (xs : Fields) → FieldsFit 83 (edit_fields cut xs)
  fields_fit no_fields = tt
  fields_fit (field k (text s) xs) = rw (or_text-cut s) (shown_fits s, tt, fields_fit xs)
  fields_fit (field k (array ys) xs) = (tt, items_fit ys, fields_fit xs)
  fields_fit (field k (object ys) xs) = (tt, fields_fit ys, fields_fit xs)
  fields_fit (field k null xs) = (tt, tt, fields_fit xs)
  fields_fit (field k (boolean b) xs) = (tt, tt, fields_fit xs)
  fields_fit (field k (number n) xs) = (tt, tt, fields_fit xs)

-- After `truncateStrings` no string in a map or a slice, at any depth, has more than 83 bytes, and a
-- second pass changes nothing.
pub truncate_strings-StringsFit :
    (v : Json)
    → StringsFit 83 (truncate_strings v)
      × (truncate_strings (truncate_strings v) ≡ truncate_strings v)
unfolding truncate_strings
truncate_strings-StringsFit v = (edit_fits v, edit_again v)
