-- ===== src/Systemd.antt =====
-- internal/systemd: unit states, the mapping of systemd's answers and the supervisor of one bus.
pub mod Unit
pub mod Statuses
pub mod Supervisor
pub mod Conn
