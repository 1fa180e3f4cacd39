-- ===== src/Tests.antt =====
-- The properties at concrete inputs.
mod Writer
mod Spelling
mod Sse
mod Matcher
mod Session
mod Filter
mod Supply
mod Luhn
mod Proxy
mod Floor
mod Walk
mod Response
mod Evaluate
mod Restore
mod Reassembler
