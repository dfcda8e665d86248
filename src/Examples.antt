-- ===== src/Examples.antt =====
-- The results of the other modules at concrete inputs, and tests of the definitions.
mod Config
mod Topics
mod Systemd
mod Daemon
mod Loop
mod Client
mod Discovery
mod Command
mod Polkit
mod Pump
mod Conn
