-- ===== src/Tests.antt =====
-- Runs of the definitions, and the theorems at concrete inputs.
pub mod Data
pub mod OfWire
pub mod OfParams
pub mod OfKeeper
pub mod OfModule
pub mod OfMessages
pub mod OfApi
pub mod OfApp
pub mod OfExport
pub mod OfCmd
pub mod OfGenesis
pub mod OfInPlace
pub mod OfInitialState
pub mod OfGentx
