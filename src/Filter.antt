-- ===== src/Filter.antt =====
-- pkg/filter: the rules' guard, the sensitive-key gate, the evaluation loop and the action policy.
pub mod Rule
pub mod Sensitive
pub mod Collect
pub mod Evaluate
pub mod Policy
pub mod Luhn
pub mod Floor
