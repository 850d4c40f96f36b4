-- ===== src/Lifetimes.antt =====
-- crates/core/src/sema/lifetime_check.rs: `[lifetime …]` lists and the lifetimes that signatures and
-- fields name. The errors are a list in the order in which they are added to the manager.
pub mod Cycles
pub mod Chains
pub mod Search
pub mod Acyclic
pub mod Check
pub mod Mentions
pub mod Names
pub mod WellFormed
pub mod Accepts
