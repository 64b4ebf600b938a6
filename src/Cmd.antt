-- ===== src/Cmd.antt =====
-- The command line's own logic: cmd/bluechipchaind/cmd.
pub mod MultiNode
pub mod InPlace
pub mod Export
