-- ===== src/Kernel.antt =====
-- ebpf/sys_filter.bpf.c, ebpf/net_filter.bpf.c and ebpf/process_monitor.bpf.c: what the programs
-- decide, what they report, and how they follow what the sandbox manager writes into their maps.
pub mod Tasks
pub mod Maps
pub mod Syscalls
pub mod Network
pub mod Execs
pub mod Reports
pub mod Misreports
pub mod Objects
pub mod Written
pub mod Enforcement
pub mod Refused
