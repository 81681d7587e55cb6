-- ===== src/Registry/Rules.antt =====
-- Rules for what the registry's actions keep.
pub mod Basic
pub mod Calls
pub mod Leads
