-- ===== src/Cmd.antt =====
-- cmd/cloudattr: the command line.
pub mod Flags
pub mod Resolve
pub mod Export
pub mod Build
pub mod Lookup
pub mod Serve
pub mod Main
