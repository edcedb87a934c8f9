-- ===== src/Tests/Refused.antt =====
-- A kernel whose map of monitored cgroups is full.
use aegis_sandbox.Prelude.{ℕ, ◌≡◌, refl, none, arith}
use aegis_sandbox.Prelude.Int.{minus_one}
use aegis_sandbox.Core.{success}
use aegis_sandbox.Os.{Os}
use aegis_sandbox.Policy.Engine.{policy_engine, strict_python}
use aegis_sandbox.Cgroup.Manager.{get_cgroup_id}
use aegis_sandbox.Sandbox.Boot.{apply_ebpf_policies}
use aegis_sandbox.Sandbox.Steps.{new_instance}
use aegis_sandbox.Kernel.Tasks.{KernelMaps}
use aegis_sandbox.Kernel.Syscalls.{passed, handle_sys_enter}
use aegis_sandbox.Kernel.Refused.{refused_update_passes}
use aegis_sandbox.Tests.Machines.{object_os, descriptor_of}
use aegis_sandbox.Tests.Sandboxes.{instance, busy}
use aegis_sandbox.Tests.Enforcement.{with_loader, loaded, placed, known}
use aegis_sandbox.Tests.Kernel.{task}
use aegis_sandbox.Tests.Objects.{task_inside, unwritten, declares_cgroups}
use aegis_sandbox.Kernel.Maps.{declared, sys_filter}

abbrev full_os : Os
full_os = record (object_os sys_filter) { bpf_update = λ t fd key value. minus_one }

abbrev empty_maps : KernelMaps
empty_maps = record {
  monitored_cgroups = λ k. none;
  syscall_policy = λ k. none;
  blocked_ips = λ k. none;
  monitored_cgroups_proc = λ k. none;
}

refused_update_passes_example :
    ((apply_ebpf_policies full_os instance (with_loader loaded)).0 ≡ success)
    × ((nr : ℕ) → handle_sys_enter empty_maps task nr ≡ passed)
unfolding new_instance
refused_update_passes_example =
    refused_update_passes full_os descriptor_of (declared sys_filter) 1 (λ t name. refl) loaded refl
      instance policy_engine strict_python (with_loader loaded) refl refl known placed
      declares_cgroups (λ e. omega (arith, e), λ e. omega (arith, e)) (λ t k v. refl) empty_maps
      task (unwritten 10 (get_cgroup_id busy.state.cgroup_manager "agent-1")) (λ e. refl)
      task_inside
