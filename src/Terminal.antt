-- ===== src/Terminal.antt =====
-- The terminal program: tuti-tui/internal/tui.
pub mod Commands
pub mod Widgets
pub mod Model
pub mod Run
pub mod Exec
pub mod Panel
pub mod Update
pub mod Form
pub mod Keys
pub mod System
pub mod Safe
pub mod View
