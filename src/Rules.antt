-- ===== src/Rules.antt =====
-- rules/: the legality checks and the governance of the rule packages.
pub mod Governance
pub mod Engine
