-- ===== src/Fixedmint.antt =====
-- The module x/fixedmint: a fixed reward for each block, set by governance.
pub mod Params
pub mod Keeper
pub mod Module
pub mod Messages
