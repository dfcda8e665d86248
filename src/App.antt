-- ===== src/App.antt =====
-- internal/app: the daemon's event loop.
pub mod State
pub mod Model
pub mod Publish
pub mod Reconcile
pub mod Commands
pub mod Template
pub mod Loop
