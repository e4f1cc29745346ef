-- ===== src/Terminal/Panel/Range.antt =====
-- The lines that the history panel scrolls to are those of the selected entry.
use tuti_server.Base.{
  some_injective, ℕ, zero, suc, ◌+◌, ◌<◌, ◌≡◌, refl, ap, ◌∙◌, ℤ, pos, sub_ℕ, true, false, List, [],
  ◌∷◌, some, length, get_elem?, take, arith, eqb, ◌&&◌,
}
use tuti_server.Client.{HistoryEntry}
use tuti_server.Terminal.Widgets.{Texts}
use tuti_server.Terminal.Panel.{Selection, entry_lines, content_loop, history_content}

sym_plus : (n : ℕ) → n ≡ n + 0
sym_plus n = omega arith

module _ (texts : Texts) (sel : Selection) (width : ℕ) where
  selected : (i : ℕ) → sel.focused ≡ true → sel.index ≡ i → (sel.focused && eqb i sel.index) ≡ true
  selected i focused here = ground arith

  unselected : (i : ℕ) → i < sel.index → (sel.focused && eqb i sel.index) ≡ false
  unselected i before = ground arith

  -- The lines of entries that are not selected
  abbrev pub lines_of : List HistoryEntry → ℕ
  lines_of [] = 0
  lines_of (e ∷ rest) = length (entry_lines texts e false sel.busy width) + lines_of rest

  not_again :
      (i line s : ℕ) (t : ℤ) (entries : List HistoryEntry)
      → sel.index < i
      → ((content_loop texts sel width i line s t entries).sel_start ≡ s)
        × ((content_loop texts sel width i line s t entries).sel_end ≡ t)
  unfolding content_loop
  not_again i line s t [] past = (refl, refl)
  not_again i line s t (e ∷ rest) past = rw (passed i past) (
      not_again (suc i) (line + length (entry_lines texts e false sel.busy width)) s t rest
        (omega arith))
    where
      passed : (i : ℕ) → sel.index < i → (sel.focused && eqb i sel.index) ≡ false
      passed i past = ground arith

  found_at :
      (k i line s : ℕ) (t : ℤ) (entries : List HistoryEntry) (e : HistoryEntry)
      → sel.focused ≡ true
      → sel.index ≡ i + k
      → get_elem? entries k ≡ some e
      → ((content_loop texts sel width i line s t entries).sel_start
          ≡ line + lines_of (take k entries))
        × ((content_loop texts sel width i line s t entries).sel_end
            ≡ sub_ℕ
                (line
                  + lines_of (take k entries)
                  + length (entry_lines texts e true sel.busy width))
                1)
  unfolding content_loop
  found_at k i line s t [] e focused here at_k = absurd (cc)
  found_at zero i line s t (x ∷ rest) e focused here at_k =
      let n = length (entry_lines texts x true sel.busy width) in
      let same : x ≡ e = some_injective at_k in
      let (start, end) =
        not_again (suc i) (line + n) line (sub_ℕ (line + n) 1) rest (omega arith) in
      rw (selected i focused (omega arith)) (
        start ∙ sym_plus line,
        end
            ∙ ap (λ e. sub_ℕ (line + length (entry_lines texts e true sel.busy width)) 1) same
            ∙ ap (λ l. sub_ℕ (l + length (entry_lines texts e true sel.busy width)) 1)
                (sym_plus line),
      )
  found_at (suc k) i line s t (x ∷ rest) e focused here at_k =
      let n = length (entry_lines texts x false sel.busy width) in
      let (start, end) = found_at k (suc i) (line + n) s t rest e focused (omega arith) at_k in
      let moved : line + n + lines_of (take k rest) ≡ line + (n + lines_of (take k rest)) =
        omega arith in
      rw (unselected i (omega arith)) (
        start ∙ moved,
        end ∙ ap (λ l. sub_ℕ (l + length (entry_lines texts e true sel.busy width)) 1) moved,
      )

  -- While the panel has the focus, the range of lines that `historyContent` gives for the entry at the
  -- index is as long as the entry, and starts behind the lines of the entries above it.
  pub selected_range :
      (entries : List HistoryEntry) (e : HistoryEntry)
      → sel.focused ≡ true
      → get_elem? entries sel.index ≡ some e
      → ((history_content texts sel width entries).1 ≡ lines_of (take sel.index entries))
        × ((history_content texts sel width entries).2
            ≡ sub_ℕ
                (lines_of (take sel.index entries)
                  + length (entry_lines texts e true sel.busy width))
                1)
  unfolding history_content
  selected_range [] e focused at_index = absurd (cc)
  selected_range (x ∷ rest) e focused at_index =
      let (start, end) =
        found_at sel.index 0 0 0 (pos 0) (x ∷ rest) e focused (omega arith) at_index in
      let zero_plus : 0 + lines_of (take sel.index (x ∷ rest))
          ≡ lines_of (take sel.index (x ∷ rest)) =
        omega arith in
      (
        start ∙ zero_plus,
        end ∙ ap (λ l. sub_ℕ (l + length (entry_lines texts e true sel.busy width)) 1) zero_plus,
      )
