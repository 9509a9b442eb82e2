-- ===== src/Proc.antt =====
-- libkernel/src/proc and src/process/creds.rs: identities and capabilities of a process.
pub mod Bitflags
pub mod FlagLists
pub mod Caps
pub mod Creds
pub mod Limits
mod Tests
