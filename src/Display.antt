-- ===== src/Display.antt =====
-- internal/display: power save modes and the Mutter controller.
pub mod Mode
pub mod Controller
pub mod Pump
