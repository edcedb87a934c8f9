-- ===== src/Tests.antt =====
-- The theorems at concrete inputs, and runs of the definitions: one module for each part of the
-- program, and one for the operating systems that they run on.
pub mod Machines
pub mod Policies
pub mod Cgroups
pub mod Events
pub mod Sandboxes
pub mod Enforcement
pub mod Commands
pub mod Yaml
pub mod Kernel
pub mod Polling
pub mod Threads
pub mod Guest
pub mod Descriptors
pub mod Lifecycles
pub mod Registries
pub mod Handlers
pub mod Objects
pub mod Refused
pub mod Texts
