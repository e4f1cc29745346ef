-- ===== src/Terminal/Panel/Layout.antt =====
-- The three columns fill the window.
use tuti_server.Base.{ℕ, ◌+◌, ◌≤◌, ◌≡◌, arith}
use tuti_server.Terminal.Panel.{column_widths}

-- In a window of at least 49 places the three columns and the two gaps are as wide as the window, and each
-- column has its least width.
pub columns_fit :
    (width : ℕ)
    → 49 ≤ width
    → ((column_widths width).0 + (column_widths width).1 + (column_widths width).2 + 2 ≡ width)
      × (24 ≤ (column_widths width).0)
      × (10 ≤ (column_widths width).1)
      × (10 ≤ (column_widths width).2)
unfolding column_widths
columns_fit width h = ground arith
