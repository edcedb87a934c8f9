-- ===== src/Cgroup.antt =====
-- src/runtime/cgroup_manager.cpp: the methods, and what creation, histories of calls and descriptors
-- come to.
pub mod Manager
pub mod Create
pub mod Bounds
pub mod History
pub mod Descriptors
