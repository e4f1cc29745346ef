-- ===== src/Terminal/Panel.antt =====
-- How the terminal program lays out its screen and its history panel: the parts of
-- tuti-tui/internal/tui/view.go that update.go uses too.
pub mod Layout
pub mod Shift
pub mod Range
use tuti_server.Base.{
  ℕ, zero, suc, ◌+◌, ◌-◌, ◌*◌, ◌/◌, ℤ, pos, negsuc, sub_ℕ, String, Bool, true, false, List, [], ◌∷◌,
  ◌++◌, map, Option, none, some, length, eqb, ltb, leb, ◌==◌, ◌&&◌, if◌then◌else◌, Bytes, bytes_of,
  take, split, join,
}
use tuti_server.Errors.{Error}
use tuti_server.Client.{HistoryEntry}
use tuti_server.Terminal.Widgets.{
  Texts, Style, error_style, field_label_focus_style, subtle_style, sending_style,
  action_button_style, json_style,
}

-- `if n < low { n = low }`
abbrev pub at_least : ℕ → ℕ → ℕ
at_least low n = if ltb n low then low else n

-- `columnWidths`. The subtraction of a number that is not below the other is Go's; where it would be
-- negative, Go sets it to 0.
unfoldable pub column_widths : ℕ → ℕ × ℕ × ℕ
column_widths width =
    let menu_w = at_least 24 (width * 3 / 10) in
    let remaining = width - menu_w - 2 in
    let form_w = remaining * 3 / 5 in (menu_w, at_least 10 form_w, at_least 10 (remaining - form_w))

-- `topRowHeight`
unfoldable pub top_row_height : ℕ → ℕ
top_row_height height = at_least 8 (height * 2 / 5)

-- `historyContentWidth`, where the column has at least 10 places
unfoldable pub history_content_width : ℕ → ℕ
unfolding column_widths
history_content_width width = (column_widths width).2 - 6

-- `truncateLine`, for a width that is not negative
unfoldable pub truncate_line : Bytes → ℕ → Bytes
truncate_line s n =
    if eqb n 0
    then []
    else if leb (length s) n
    then s
    else if eqb n 1
    then take 1 s
    else take (n - 1) s ++ bytes_of "…"

-- `historyEntriesNewestFirst`
unfoldable newest_onto : List HistoryEntry → List HistoryEntry → List HistoryEntry
newest_onto out [] = out
newest_onto out (e ∷ rest) = newest_onto (e ∷ out) rest

unfoldable pub newest_first : List HistoryEntry → List HistoryEntry
unfolding newest_onto
newest_first = newest_onto []

-- What the panel shows of the model: whether it has the focus, the index of the selected entry, and
-- whether a call is running.
pub record Selection : Type 0 where
  pub focused : Bool
  pub index : ℕ
  pub busy : Bool

-- The variables of the loop of `historyContent`: the blocks so far are put in front of the result.
pub record Content : Type 0 where
  pub blocks : List Bytes
  pub sel_start : ℕ
  pub sel_end : ℤ

or_dash : String → String
or_dash status = if status == "" then "-" else status

module _ (texts : Texts) where
  summary_style_of : Option Error → Bool → Style
  summary_style_of (some _) selected = error_style
  summary_style_of none selected = if selected then field_label_focus_style else subtle_style

  unfoldable pub summary_line : HistoryEntry → Bool → ℕ → Bytes
  unfolding or_dash summary_style_of
  summary_line e selected width = texts.render (summary_style_of e.error selected) (
      truncate_line
        (bytes_of (if selected then "▸ " else "  ")
          ++ texts.format_time e.time
          ++ bytes_of " "
          ++ bytes_of e.rpc
          ++ bytes_of " "
          ++ bytes_of (or_dash e.status)
          ++ bytes_of " "
          ++ texts.format_duration e.duration)
        width)

  unfoldable pub button_lines : Bool → Bool → ℕ → List Bytes
  button_lines false busy width = []
  button_lines true true width =
      texts.render sending_style
        (truncate_line (bytes_of "    ⏳ Sending — waiting for response...") width)
      ∷ []
  button_lines true false width =
      texts.render action_button_style (truncate_line (bytes_of "    [ enter ▶ Replay ]") width)
      ∷ []

  body_lines : Bytes → ℕ → List Bytes
  body_lines body width = map (λ l. texts.render json_style (truncate_line l width)) (split 10 body)

  -- The lines of one entry
  unfoldable pub entry_lines : HistoryEntry → Bool → Bool → ℕ → List Bytes
  unfolding body_lines summary_line button_lines
  entry_lines e selected busy width =
      summary_line e selected width
      ∷ (button_lines selected busy width
          ++ ((texts.render subtle_style (truncate_line (bytes_of "  request:") width)
                ∷ body_lines e.request width)
              ++ (texts.render subtle_style (truncate_line (bytes_of "  response:") width)
                  ∷ body_lines e.response width)))

  unfoldable pub content_loop : Selection → ℕ → ℕ → ℕ → ℕ → ℤ → List HistoryEntry → Content
  unfolding entry_lines
  content_loop sel width i line sel_start sel_end [] = record {
    blocks = [];
    sel_start = sel_start;
    sel_end = sel_end;
  }
  content_loop sel width i line sel_start sel_end (e ∷ rest) =
      let selected = sel.focused && eqb i sel.index in
      let lines = entry_lines e selected sel.busy width in
      let n = length lines in
      let more =
        content_loop sel width (suc i) (line + n) (if selected then line else sel_start)
          (if selected then sub_ℕ (line + n) 1 else sel_end) rest in
      record more { blocks = join (10 ∷ []) lines ∷ more.blocks }

  -- `historyContent`: the text, and the first and the last line of the selected entry
  unfoldable pub history_content : Selection → ℕ → List HistoryEntry → Bytes × ℕ × ℤ
  unfolding content_loop
  history_content sel width [] =
      (texts.render subtle_style (bytes_of "(no requests yet)"), 0, negsuc 0)
  history_content sel width (e ∷ rest) =
      let c = content_loop sel width 0 0 0 (pos 0) (e ∷ rest) in
      (join (10 ∷ []) c.blocks, c.sel_start, c.sel_end)
