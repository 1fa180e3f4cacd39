-- ===== src/Redact.antt =====
-- Package pkg/redact: placeholders, their grammar, and the session maps.
pub mod Grammar
pub mod Matcher
pub mod Placeholder
pub mod Backfiller
pub mod Session
pub mod Tokens
pub mod Restore
pub mod Reassembler
