-- ===== src/Client/History.antt =====
-- What the client remembers of its exchanges, and what a replay sends.
use tuti_server.Base.{
  some_injective, ℕ, ◌+◌, ◌-◌, ◌≤◌, ◌<◌, String, ◌≡◌, ◌≢◌, refl, ap, sym, ◌∙◌, List, [], ◌∷◌, ◌++◌,
  map, Option, some, length, get_elem?, option_map, false, arith, Bytes, length-append, All,
  Bool-cases, Option-cases, All-get_elem?, inl, inr, eq_iff, ◌==◌, last, last-last_append,
  last_of_short, map-last, get_elem?-map, get_elem?-drop, length-last, length-map, subst, ltb,
  le_of_ltb, if◌then◌else◌,
}
use mathlib.Core.List.{map-append, append_assoc, append-nil}
use tuti_server.Client.{
  Client, Codec, Net, HistoryEntry, record_history, perform, replay, max_history_entries, new,
}

-- A call of `do`.
pub record Sent : Type 0 where
  pub method : String
  pub label : String
  pub path : String
  pub body : Option Bytes
  pub deadline : Option ℕ

-- What a call sends, under its label.
pub record Key : Type 0 where
  pub label : String
  pub method : String
  pub path : String
  pub body : Option Bytes

abbrev pub key : HistoryEntry → Key
key e = record { label = e.rpc; method = e.method; path = e.path; body = e.raw_request }

abbrev pub key_of : Sent → Key
key_of s = record { label = s.label; method = s.method; path = s.path; body = s.body }

if_last {ℓ} :
    {A : Type ℓ} (xs : List A) → (if ltb 20 (length xs) then last 20 xs else xs) ≡ last 20 xs
if_last xs = elim (Bool-cases (ltb 20 (length xs))) [
  | inl h ↦ rw h refl
  | inr h ↦ rw h (sym (last_of_short 20 xs (le_of_ltb 20 (length xs) h)))
]

kept_all :
    (h : List HistoryEntry) (e : HistoryEntry)
    → length h < 20
    → (if ltb max_history_entries (length (h ++ (e ∷ [])))
        then last max_history_entries (h ++ (e ∷ []))
        else h ++ (e ∷ []))
      ≡ h ++ (e ∷ [])
kept_all h e few =
    if_last (h ++ (e ∷ []))
    ∙ last_of_short 20 (h ++ (e ∷ [])) (omega (arith, length-append h (e ∷ [])))

kept_keys :
    (h : List HistoryEntry) (e : HistoryEntry)
    → map key (
        if ltb max_history_entries (length (h ++ (e ∷ [])))
        then last max_history_entries (h ++ (e ∷ []))
        else h ++ (e ∷ []))
      ≡ last 20 (map key h ++ (key e ∷ []))
kept_keys h e =
    ap (map key) (if_last (h ++ (e ∷ [])))
    ∙ map-last key 20 (h ++ (e ∷ []))
    ∙ ap (last 20) (map-append key h (e ∷ []))

ne_false : (a b : String) → a ≢ b → (a == b) ≡ false
ne_false a b h = ground (arith, eq_iff a b)

module _ (codec : Codec) {W : Type 0} (net : Net W) where
  -- Below twenty entries a call adds one.
  pub perform-adds :
      (method label path : String) (body : Option Bytes) (deadline : Option ℕ) (c : Client W)
      → length c.history < 20
      → (e : HistoryEntry) × ((perform codec net method label path body deadline c).1.history
          ≡ c.history ++ (e ∷ []))
  unfolding perform record_history
  perform-adds method label path body deadline c few = (_, kept_all c.history _ few)

  -- The calls of a run, in order, on one client.
  unfoldable pub performs : List Sent → Client W → Client W
  performs [] c = c
  performs (s ∷ rest) c =
      performs rest (perform codec net s.method s.label s.path s.body s.deadline c).1

  perform-keys :
      (s : Sent) (c : Client W)
      → map key (perform codec net s.method s.label s.path s.body s.deadline c).1.history
        ≡ last 20 (map key c.history ++ (key_of s ∷ []))
  unfolding perform record_history
  perform-keys s c = kept_keys c.history _

  perform_short :
      (s : Sent) (c : Client W)
      → length (perform codec net s.method s.label s.path s.body s.deadline c).1.history ≤ 20
  perform_short s c =
      let c' = (perform codec net s.method s.label s.path s.body s.deadline c).1 in
      subst (λ n. n ≤ 20) (ap length (sym (perform-keys s c)) ∙ length-map key c'.history)
        (length-last 20 (map key c.history ++ (key_of s ∷ [])))

  performs-keys :
      (sent : List Sent) (c : Client W)
      → length c.history ≤ 20
      → map key (performs sent c).history ≡ last 20 (map key c.history ++ map key_of sent)
  unfolding performs
  performs-keys [] c few = sym (
      ap (last 20) (append-nil (map key c.history))
      ∙ last_of_short 20 (map key c.history) (omega (arith, length-map key c.history)))
  performs-keys (s ∷ rest) c few =
      performs-keys rest (perform codec net s.method s.label s.path s.body s.deadline c).1
        (perform_short s c)
      ∙ ap (λ ks. last 20 (ks ++ map key_of rest)) (perform-keys s c)
      ∙ last-last_append 20 (map key c.history ++ (key_of s ∷ [])) (map key_of rest)
      ∙ ap (last 20) (append_assoc (map key c.history) (key_of s ∷ []) (map key_of rest))

  -- After any exchanges of a fresh client, failed ones included, its history is the last twenty of them,
  -- all of them if there were fewer, with label, method, path and body, oldest first.
  pub history_of_run :
      (base_url : String) (w : W) (sent : List Sent)
      → map key (performs sent (new base_url w)).history ≡ last 20 (map key_of sent)
  unfolding new
  history_of_run base_url w sent =
      performs-keys sent (record { base_url = base_url; history = []; world = w }) (omega arith)

  replay_named :
      (e : HistoryEntry) (c : Client W)
      → e.method ≢ ""
      → e.path ≢ ""
      → replay codec net e c ≡ perform codec net e.method e.rpc e.path e.raw_request (some 60) c
  unfolding replay
  replay_named e c named_method named_path =
      rw (ne_false e.method "" named_method) (rw (ne_false e.path "" named_path) refl)

  replay-key :
      (e : HistoryEntry) (s : Sent) (c : Client W)
      → key e ≡ key_of s
      → (s.method ≢ "") × (s.path ≢ "")
      → replay codec net e c ≡ perform codec net s.method s.label s.path s.body (some 60) c
  replay-key e s c same named =
      replay_named e c (λ h. named.0 (sym (ap (λ k. k.method) same) ∙ h))
        (λ h. named.1 (sym (ap (λ k. k.path) same) ∙ h))
      ∙ ap (λ k. perform codec net k.method k.label k.path k.body (some 60) c) same

  -- After any exchanges of a fresh client, each with a method and a path, `Replay` of an entry of the
  -- history repeats the exchange that the entry's place stands for, whatever became of it: the same
  -- method, address and body, recorded under the same label, with a deadline of a minute.
  pub replay_repeats :
      (base_url : String) (w : W) (sent : List Sent) (i : ℕ) (e : HistoryEntry) (c : Client W)
      → All (λ s. (s.method ≢ "") × (s.path ≢ "")) sent
      → get_elem? (performs sent (new base_url w)).history i ≡ some e
      → (s : Sent) × (get_elem? sent (length sent - 20 + i) ≡ some s)
        × (replay codec net e c ≡ perform codec net s.method s.label s.path s.body (some 60) c)
  replay_repeats base_url w sent i e c named at_i =
      let h = (performs sent (new base_url w)).history in
      let there : option_map key_of (get_elem? sent (length sent - 20 + i)) ≡ some (key e) =
        sym (get_elem?-map key_of sent (length sent - 20 + i))
        ∙ ap (λ n. get_elem? (map key_of sent) (n - 20 + i)) (sym (length-map key_of sent))
        ∙ sym (get_elem?-drop (length (map key_of sent) - 20) i (map key_of sent))
        ∙ ap (λ ks. get_elem? ks i) (sym (history_of_run base_url w sent))
        ∙ get_elem?-map key h i
        ∙ ap (option_map key) at_i in
      elim (Option-cases (get_elem? sent (length sent - 20 + i))) [
        | inl missing ↦ absurd (cc)
        | inr (s, found) ↦ (
          s,
          found,
          replay-key e s c (some_injective (sym there ∙ ap (option_map key_of) found))
              (All-get_elem? _ sent (length sent - 20 + i) s named found),
        )
      ]
