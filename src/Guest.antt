-- ===== src/Guest.antt =====
-- guest/cmd/agent/main.go, the agent inside of a microVM, and what the host makes of its answers.
pub mod Agent
pub mod Limits
pub mod Scripts
pub mod Answers
pub mod Handlers
pub mod Stamps
pub mod Separation
