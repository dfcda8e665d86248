-- ===== src/Cmd.antt =====
-- cmd/systemd2mqtt: the command line, and what the process does and exits with.
pub mod Flags
pub mod Run
