-- ===== src/Client/Redaction.antt =====
-- What the history keeps to show of a request with long parameters, such as a photo: their length alone.
use tuti_server.Base.{
  ℕ, ◌-◌, ◌≤◌, String, ◌≡◌, refl, ap, sym, ◌∙◌, List, [], ◌∷◌, ◌++◌, length, drop, some, Option,
  arith, Bytes, length-append, Bool-cases, inl, inr, ltb, if◌then◌else◌, is_empty, false, zero, suc,
}
use tuti_server.Errors.{ok}
use tuti_server.Client.{Client, Codec, Net, HistoryEntry, perform, request_redact_threshold}
use tuti_server.Client.Json.{Fields, object, pretty_raw_redacted, redact_long_strings}
use tuti_server.Client.Json.Redacted.{AlikeFields, redact_long_strings_alike}

drop-append {ℓ} :
    {A : Type ℓ} (n : ℕ) (xs ys : List A) → n ≤ length xs → drop n (xs ++ ys) ≡ drop n xs ++ ys
drop-append zero xs ys h = refl
drop-append (suc n) [] ys h = absurd (omega arith)
drop-append (suc n) (x ∷ xs) ys h = drop-append n xs ys (omega arith)

-- Whatever is dropped, the newest entry stays the last one.
newest_kept {ℓ} :
    {A : Type ℓ} (xs : List A) (e : A)
    → (earlier : List A) × ((if ltb 20 (length (xs ++ (e ∷ [])))
          then drop (length (xs ++ (e ∷ [])) - 20) (xs ++ (e ∷ []))
          else xs ++ (e ∷ []))
        ≡ earlier ++ (e ∷ []))
newest_kept xs e = elim (Bool-cases (ltb 20 (length (xs ++ (e ∷ []))))) [
  | inl h ↦ (
    drop (length (xs ++ (e ∷ [])) - 20) xs,
    rw h (
        drop-append (length (xs ++ (e ∷ [])) - 20) xs (e ∷ [])
          (omega (arith, length-append xs (e ∷ [])))),
  )
  | inr h ↦ (xs, rw h refl)
]

module _ (codec : Codec) {W : Type 0} (net : Net W) where
  redacted_text :
      (b out : Bytes) (xs : Fields)
      → is_empty b ≡ false
      → codec.json.unmarshal b ≡ ok (object xs)
      → codec.json.marshal_indent (redact_long_strings request_redact_threshold (object xs))
        ≡ ok out
      → pretty_raw_redacted codec.json b request_redact_threshold ≡ out
  unfolding pretty_raw_redacted
  redacted_text b out xs full read shown = rw full (rw read (rw shown refl))

  newest_request :
      (method label path : String) (b : Bytes) (deadline : Option ℕ) (c : Client W)
      → (e : HistoryEntry) × (earlier : List HistoryEntry) × ((perform codec net method label path
            (some b)
            deadline
            c).1.history
          ≡ earlier ++ (e ∷ []))
        × (e.request ≡ pretty_raw_redacted codec.json b request_redact_threshold)
  unfolding perform
  newest_request method label path b deadline c =
      let (earlier, kept) = newest_kept c.history _ in (_, earlier, kept, refl)

  -- A call whose body is an object adds, as the newest entry of the history, one that shows of the
  -- parameters that are longer than the bound, at any depth, nothing but how long they are: two objects
  -- that differ in the bytes of such strings alone leave one text, where that text can be encoded.
  pub request_redacted :
      (method label path : String) (b b' out : Bytes) (xs ys : Fields) (deadline : Option ℕ)
      (c : Client W)
      → is_empty b ≡ false
      → is_empty b' ≡ false
      → codec.json.unmarshal b ≡ ok (object xs)
      → codec.json.unmarshal b' ≡ ok (object ys)
      → AlikeFields request_redact_threshold xs ys
      → codec.json.marshal_indent (redact_long_strings request_redact_threshold (object xs))
        ≡ ok out
      → (e e' : HistoryEntry) × (earlier earlier' : List HistoryEntry) × ((perform codec net method
            label path
            (some b)
            deadline
            c).1.history
          ≡ earlier ++ (e ∷ []))
        × ((perform codec net method label path (some b') deadline c).1.history
            ≡ earlier' ++ (e' ∷ []))
        × (e.request ≡ out)
        × (e'.request ≡ out)
  request_redacted method label path b b' out xs ys deadline c full full' read read' alike shown =
      let (e, earlier, kept, is) = newest_request method label path b deadline c in
      let (e', earlier', kept', is') = newest_request method label path b' deadline c in
      let shown' = ap codec.json.marshal_indent (sym (redact_long_strings_alike alike)) ∙ shown in
      (
        e,
        e',
        earlier,
        earlier',
        kept,
        kept',
        is ∙ redacted_text b out xs full read shown,
        is' ∙ redacted_text b' out ys full' read' shown',
      )
