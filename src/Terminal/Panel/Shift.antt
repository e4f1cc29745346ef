-- ===== src/Terminal/Panel/Shift.antt =====
-- What the index of the history panel selects, when another exchange is recorded.
use tuti_server.Base.{
  ℕ, suc, ◌<◌, ◌≡◌, refl, ap, ◌∙◌, String, List, [], ◌∷◌, ◌++◌, Option, length, get_elem?, Bytes,
}
use tuti_server.Client.{Client, Codec, Net, HistoryEntry, perform}
use tuti_server.Client.History.{perform-adds}
use tuti_server.Terminal.Panel.{newest_onto, newest_first}

newest_onto-append :
    (out xs : List HistoryEntry) (e : HistoryEntry)
    → newest_onto out (xs ++ (e ∷ [])) ≡ e ∷ newest_onto out xs
unfolding newest_onto
newest_onto-append out [] e = refl
newest_onto-append out (x ∷ xs) e = newest_onto-append (x ∷ out) xs e

-- While fewer than twenty exchanges are kept, another exchange moves every entry of the panel one place
-- down: an index that selected an entry then selects the one above it.
pub selection_shifts :
    (codec : Codec) {W : Type 0} (net : Net W) (method label path : String) (body : Option Bytes)
    (deadline : Option ℕ) (c : Client W) (i : ℕ)
    → length c.history < 20
    → get_elem?
        (newest_first (perform codec net method label path body deadline c).1.history)
        (suc i)
      ≡ get_elem? (newest_first c.history) i
unfolding newest_first
selection_shifts codec net method label path body deadline c i few =
    let (e, added) = perform-adds codec net method label path body deadline c few in
    ap (λ h. get_elem? (newest_onto [] h) (suc i)) added
    ∙ ap (λ h. get_elem? h (suc i)) (newest_onto-append [] c.history e)
