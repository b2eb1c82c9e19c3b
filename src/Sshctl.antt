-- ===== src/Sshctl.antt =====
-- cmd/sshctl: the repository as the commands and the terminal interface use it, the commands, and
-- the terminal interface.
pub mod Repository
pub mod Blocks
pub mod Enforced
pub mod Lists
pub mod Tui
pub mod Stats
pub mod Main
