-- ===== src/Sandbox.antt =====
-- src/runtime/sandbox_manager.cpp.
pub mod Types
pub mod Boot
pub mod Child
pub mod Steps
pub mod Manager
pub mod Frames
pub mod Prepare
pub mod Start
pub mod Create
pub mod Terminate
pub mod Shutdown
pub mod Execute
pub mod Validity
pub mod History
pub mod Unloaded
pub mod Paths
pub mod Threads
pub mod Ownership
pub mod Calls
pub mod Serving
pub mod Mutex
pub mod Blocking
pub mod Sockets
pub mod Descriptors
pub mod Taps
pub mod Accounts
pub mod Balance
pub mod Isolation
pub mod Lifecycle
pub mod Registry
pub mod Refinement
pub mod Linearization
