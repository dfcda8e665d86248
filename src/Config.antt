-- ===== src/Config.antt =====
-- internal/config/config.go: the configuration, its names, defaults, expansion and validation.
pub mod Names
pub mod Data
pub mod Unit
pub mod Load
pub mod Expand
pub mod Query
pub mod Secrets
pub mod Validate
