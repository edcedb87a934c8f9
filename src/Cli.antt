-- ===== src/Cli.antt =====
-- cmd/aegis-cli/main.cpp.
pub mod Numbers
pub mod Options
pub mod Main
pub mod Texts
pub mod Sessions
pub mod Descriptors
pub mod Signals
