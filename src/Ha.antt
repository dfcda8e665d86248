-- ===== src/Ha.antt =====
-- internal/ha: the topic layout.
pub mod Topics
pub mod Discovery
pub mod Polkit
