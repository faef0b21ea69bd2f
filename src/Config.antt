-- ===== src/Config.antt =====
-- internal/config/config.go: the configuration's data, its defaults and its validation.
pub mod Types
pub mod Defaults
pub mod Idempotence
pub mod Validation
pub mod ModelAcceptance
pub mod ProviderAcceptance
pub mod Acceptance
pub mod Entries
pub mod Validity
pub mod Samples
mod Tests
