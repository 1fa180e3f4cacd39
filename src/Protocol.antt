-- ===== src/Protocol.antt =====
-- Package pkg/protocol: the wire formats.
pub mod Writer
pub mod Spelling
pub mod Sse
pub mod Leaf
pub mod Span
pub mod Edit
pub mod Identity
pub mod Walk
