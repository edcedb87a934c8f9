-- ===== src/Policy.antt =====
-- src/policy/policy_engine.cpp: the syscall table, the engine, its decisions and the policies that it
-- makes itself.
pub mod Syscalls
pub mod Engine
pub mod Decisions
pub mod Defaults
pub mod Regex
pub mod Reads
pub mod Search
pub mod Yaml
pub mod Tokens
pub mod Brackets
pub mod Loading
pub mod Refinement
pub mod Permissions
