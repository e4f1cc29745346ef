-- ===== src/Client/Json/Redacted.antt =====
-- What the redaction of a body keeps of a long string in it: its length alone.
use tuti_server.Base.{ℕ, ◌<◌, ◌≡◌, refl, sym, ap, length, Bytes, ◌⊎◌, inl, inr, lt_ltb}
use tuti_server.Client.Json.{
  Json, text, array, object, Items, no_items, item, Fields, no_fields, field, edit_strings,
  edit_items, edit_fields, replaced, or_text, redact, redact_long_strings,
}

-- Two values that differ in strings of more than `n` bytes, and there in nothing but the bytes of
-- strings that are equally long.
abbrev pub SameText : ℕ → Bytes → Bytes → Type 0
SameText n s t = (s ≡ t) ⊎ ((n < length s) × (length s ≡ length t))

mutual
  pub data Alike (n : ℕ) : Json → Json → Type 0 where
    same : (v : Json) → Alike n v v
    texts : {s t : Bytes} → SameText n s t → Alike n (text s) (text t)
    arrays : {xs ys : Items} → AlikeItems n xs ys → Alike n (array xs) (array ys)
    objects : {xs ys : Fields} → AlikeFields n xs ys → Alike n (object xs) (object ys)

  pub data AlikeItems (n : ℕ) : Items → Items → Type 0 where
    both_end : AlikeItems n no_items no_items
    items :
        {v w : Json} {xs ys : Items}
        → Alike n v w
        → AlikeItems n xs ys
        → AlikeItems n (item v xs) (item w ys)

  pub data AlikeFields (n : ℕ) : Fields → Fields → Type 0 where
    both_empty : AlikeFields n no_fields no_fields
    fields :
        (k : Bytes) {v w : Json} {xs ys : Fields}
        → Alike n v w
        → AlikeFields n xs ys
        → AlikeFields n (field k v xs) (field k w ys)

redact_alike :
    (n : ℕ) (s t : Bytes)
    → SameText n s t
    → or_text (redact n s) (text s) ≡ or_text (redact n t) (text t)
unfolding redact
redact_alike n s t (inl e) = rw e refl
redact_alike n s t (inr (long, e)) = rw (sym e) (rw (lt_ltb n (length s) long) refl)

mutual
  unfolding edit_strings

  items_alike :
      {n : ℕ} {xs ys : Items}
      → AlikeItems n xs ys
      → edit_items (redact n) xs ≡ edit_items (redact n) ys
  items_alike both_end = refl
  items_alike {n} (items {v} {w} a rest) = cc (same_shown a, items_alike rest)

  fields_alike :
      {n : ℕ} {xs ys : Fields}
      → AlikeFields n xs ys
      → edit_fields (redact n) xs ≡ edit_fields (redact n) ys
  fields_alike both_empty = refl
  fields_alike (fields k a rest) = cc (same_shown a, fields_alike rest)

  same_shown :
      {n : ℕ} {v w : Json}
      → Alike n v w
      → or_text (replaced (redact n) v) (edit_strings (redact n) v)
        ≡ or_text (replaced (redact n) w) (edit_strings (redact n) w)
  same_shown (same v) = refl
  same_shown {n} (texts {s} {t} h) = redact_alike n s t h
  same_shown (arrays h) = ap array (items_alike h)
  same_shown (objects h) = ap object (fields_alike h)

-- Two objects that differ in the bytes of strings over the bound alone, at any depth, are redacted alike.
pub redact_long_strings_alike :
    {n : ℕ} {xs ys : Fields}
    → AlikeFields n xs ys
    → redact_long_strings n (object xs) ≡ redact_long_strings n (object ys)
unfolding redact_long_strings edit_strings
redact_long_strings_alike h = ap object (fields_alike h)
