-- ===== src/Lib.antt =====
-- aegis-sandbox: the C++ runtime that boots Firecracker microVMs for untrusted code, limits each
-- of them by a cgroup and filters its syscalls and connections by eBPF programs.
--
-- The parts and how they interact.
-- - Policy (src/policy/policy_engine.cpp, include/aegis/policy/policy_engine.hpp): the engine
--   keeps security policies by name and evaluates syscalls and destinations. Policy/Syscalls.antt
--   has the table of names and `resolve_syscall_name`, Policy/Engine.antt the records and the
--   methods, Policy/Yaml.antt `load_from_yaml` on the regular expressions of Policy/Regex.antt,
--   which match as those of `std::regex` do, as far as the source uses them. Policy/Reads.antt
--   says what an expression may read, Policy/Tokens.antt what the words of a text are, and
--   Policy/Refinement.antt has the specification of the engine by histories of calls, and
--   Policy/Permissions.antt relates what a loaded policy permits to its text.
-- - Cgroup (src/runtime/cgroup_manager.cpp and its header): one cgroup for each sandbox, with its
--   limits, inode number and directory descriptor. Cgroup/Manager.antt has every method.
-- - Ebpf (src/ebpf/ebpf_loader.cpp, src/ebpf/ring_buffer_reader.cpp and their headers): the
--   loader holds a BPF object and its links and writes the kernel's maps (Ebpf/Loader.antt); the
--   reader decodes the samples of the ring buffer and calls back (Ebpf/RingBuffer.antt, on the
--   struct layouts of Ebpf/Layout.antt; Ebpf/Variants.antt has what a length is decoded to).
--   Ebpf/Polling.antt has its polling thread and its owner as a relation of steps that
--   interleave.
-- - Kernel (ebpf/sys_filter.bpf.c, ebpf/net_filter.bpf.c, ebpf/process_monitor.bpf.c): the
--   programs that run in the kernel, one file each (Kernel/Syscalls.antt, Kernel/Network.antt,
--   Kernel/Execs.antt), on the helpers and maps of Kernel/Tasks.antt; Kernel/Maps.antt has the
--   maps that each object declares (Kernel/Objects.antt). They read what the loader writes
--   (Kernel/Written.antt, Kernel/Enforcement.antt, and Kernel/Refused.antt where the kernel
--   refuses a write), and
--   their events go to the reader (Kernel/Reports.antt and Kernel/Misreports.antt).
-- - Sandbox (src/runtime/sandbox_manager.cpp and its header): the manager owns a cgroup manager,
--   shares a loader and an engine, and keeps the instances. Sandbox/Types.antt has the records,
--   Sandbox/Boot.antt the steps that bring a microVM up (Sandbox/Child.antt has the child's side
--   of its `fork`), Sandbox/Steps.antt what the methods do under the lock, Sandbox/Manager.antt
--   the public methods, and Sandbox/Threads.antt any number of threads that call them
--   (Sandbox/Calls.antt, Sandbox/Serving.antt,
--   Sandbox/Mutex.antt, Sandbox/Blocking.antt).
--   Sandbox/Balance.antt is about the descriptors through a history of calls, and
--   Cli/Descriptors.antt through a run of the program. Sandbox/Registry.antt is the abstract
--   registry of sandboxes that the manager stands for (Sandbox/Refinement.antt,
--   Sandbox/Linearization.antt); Sandbox/Lifecycle.antt and Sandbox/Isolation.antt are about one
--   sandbox and about the others beside it.
-- - Guest (guest/cmd/agent/main.go): the agent inside the microVM, which runs scripts
--   (Guest/Agent.antt), and Guest/Handlers.antt its goroutines as a relation of steps that
--   interleave (Guest/Separation.antt). Guest/Answers.antt is about the host's `execute_code` and
--   the agent together.
-- - Core (include/aegis/aegis.hpp): status codes, messages, metadata, version.
-- - Cli (cmd/aegis-cli/main.cpp): the options (Cli/Options.antt, Cli/Numbers.antt) and the
--   commands, each on a manager of its own that is destroyed at the end of the run
--   (Cli/Main.antt), the texts that are printed (Cli/Texts.antt), and the signal handler
--   (Cli/Signals.antt).
-- - Os.antt: the operating system, the C library and libbpf. They are not code of the repository:
--   a record `Os` answers each call from the trace of the calls before it, as it likes, and the
--   theorems hold for every such record, or say what they ask of it. A call that has an effect is
--   recorded in the trace.
-- - Prelude: the libraries' names, lists, maps, paths, decimal texts and signed integers.
-- - Tests: the theorems at concrete inputs.
--
-- A method is a function from the machine (the object's state and the trace) to its result and
-- the machine that it leaves. A method that throws nothing and holds its object's mutex
-- throughout is one step. The sandbox manager's mutex is a flag of its state, since
-- `create_sandbox` calls `terminate_sandbox` under it: a method that waits for a mutex of its own
-- thread has the result `none`, and Sandbox/Threads.antt has what it leaves behind when it waits. Maps are association lists with one entry for each key; an
-- iteration takes their order.
--
-- Bounds and fuel: the wait for Firecracker's socket has the source's 50 rounds, and the decimal
-- digits of a number have fuel for 64 bits and more; the iterator over the names of a list has
-- the length of the list for fuel, and each name takes a character of it; the other loops go over
-- lists, and the loop of the polling thread is a relation of steps. Machine integers are natural
-- numbers; the products that the source computes in 64 bits are taken modulo 2 ^ 64. Times are
-- the nanoseconds of the clock, of which the source makes milliseconds.
--
-- Not modelled: what the library prints on the standard error stream, exceptions of the standard
-- library other than that of `std::stoul`, the interleaving of threads but for those of the
-- sandbox manager, of the ring buffer reader and of the agent, what Firecracker itself does,
-- what a script in a microVM does to the agent's other scripts, and how the kernel verifies and
-- attaches the programs. `bpf_hltonl`, which ebpf/net_filter.bpf.c calls, is a parameter, and so are
-- Go's JSON decoder and the text that `std::format` makes of a time. The interface
-- api/aegis/v1/sandbox.proto is used by no code; the policy files are data.
pub mod Prelude
pub mod Core
pub mod Policy
pub mod Os
pub mod Cgroup
pub mod Ebpf
pub mod Sandbox
pub mod Kernel
pub mod Guest
pub mod Cli
pub mod Tests
