-- ===== src/Maintain.antt =====
-- src/event_store/ledger.rs, files.rs, options.rs, initializer.rs, admin.rs and maintenance.rs: the
-- parts of the store beside reading and appending.
pub mod Ledger
pub mod Files
pub mod Options
pub mod Setup
pub mod Admin
pub mod Tagging
