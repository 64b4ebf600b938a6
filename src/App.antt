-- ===== src/App.antt =====
-- The application's own configuration and checks: app/.
pub mod Accounts
pub mod Ante
pub mod GenesisAccount
pub mod ZeroHeight
pub mod Export
