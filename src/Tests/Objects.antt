-- ===== src/Tests/Objects.antt =====
-- The policies on the objects of the repository.
use aegis_sandbox.Prelude.{
  ℕ, ◌≡◌, refl, ◌&&◌, false, some, List, [], ◌∷◌, has_key, lookup, insert, none,
}
use aegis_sandbox.Prelude.Int.{ℤ, pos}
use aegis_sandbox.Core.{success}
use aegis_sandbox.Policy.Engine.{policy_engine, strict_python, get_policy, metadata_ip}
use aegis_sandbox.Policy.Syscalls.{resolve_syscall_name, syscall_name_map}
use aegis_sandbox.Sandbox.Steps.{new_instance}
use aegis_sandbox.Cgroup.Manager.{get_cgroup_id}
use aegis_sandbox.Sandbox.Boot.{apply_ebpf_policies}
use aegis_sandbox.Kernel.Maps.{
  BpfObject, sys_filter, net_filter, process_monitor, declared, sys_filter_maps, net_filter_maps,
  process_monitor_maps,
}
use aegis_sandbox.Kernel.Objects.{updates, requests, granted, apply_ebpf_policies-updates}
use aegis_sandbox.Tests.Machines.{object_os, descriptor_of}
use aegis_sandbox.Tests.Sandboxes.{instance, busy}
use aegis_sandbox.Tests.Enforcement.{with_loader, loaded, placed, known}
use aegis_sandbox.Prelude.{◌↔◌, contains, All, ◌<◌, ◌⊎◌, arith, true}
use aegis_sandbox.Os.{Trace}
use aegis_sandbox.Kernel.Tasks.{KernelMaps}
use aegis_sandbox.Kernel.Syscalls.{handle_sys_enter}
use aegis_sandbox.Kernel.Network.{aegis_cgroup_connect4}
use aegis_sandbox.Kernel.Written.{written}
use aegis_sandbox.Kernel.Enforcement.{
  SyscallsReflect, IpsReflect, handle_sys_enter-apply_ebpf_policies,
  aegis_cgroup_connect4-apply_ebpf_policies,
}
use aegis_sandbox.Tests.Kernel.{task, to_metadata, metadata_swapped}

-- No object of the repository has both the map of the syscalls and that of the addresses.
no_object_takes_all :
    (o : BpfObject)
    → (has_key "aegis_syscall_policy" (declared o) && has_key "aegis_blocked_ips" (declared o))
      ≡ false
unfolding has_key lookup declared sys_filter_maps net_filter_maps process_monitor_maps
no_object_takes_all sys_filter = refl
no_object_takes_all net_filter = refl
no_object_takes_all process_monitor = refl

-- With net_filter.bpf.o only the address of the metadata service is written.
abbrev metadata_only : List (ℤ × ℕ × ℕ)
metadata_only = (pos 12, metadata_ip, 1) ∷ []

granted-net_filter :
    granted descriptor_of
      (declared net_filter)
      (requests (declared net_filter) (some strict_python) 77)
      []
    ≡ metadata_only
unfolding granted requests has_key lookup declared net_filter_maps strict_python
    resolve_syscall_name syscall_name_map insert
granted-net_filter = refl

apply_ebpf_policies-updates_example :
    ((apply_ebpf_policies (object_os net_filter) instance (with_loader loaded)).0 ≡ success)
    × (updates (apply_ebpf_policies (object_os net_filter) instance (with_loader loaded)).1.trace
        ≡ granted descriptor_of
            (declared net_filter)
            (requests
              (declared net_filter)
              (get_policy policy_engine "strict_python")
              (get_cgroup_id busy.state.cgroup_manager "agent-1"))
            [])
unfolding updates new_instance
apply_ebpf_policies-updates_example =
    apply_ebpf_policies-updates (object_os net_filter) descriptor_of (declared net_filter) 1
      (λ t name. refl) loaded refl instance policy_engine (with_loader loaded) refl refl placed

-- The maps of an object after the policies are applied.
abbrev applied_to : BpfObject → Trace
applied_to o = (apply_ebpf_policies (object_os o) instance (with_loader loaded)).1.trace

abbrev maps_of : BpfObject → KernelMaps
maps_of o = record {
  monitored_cgroups = λ k. written 10 k (applied_to o);
  syscall_policy = λ k. written 11 k (applied_to o);
  blocked_ips = λ k. written 12 k (applied_to o);
  monitored_cgroups_proc = λ k. written 13 k (applied_to o);
}

pub unwritten : (fd k : ℕ) → written fd k [] ≡ none
unfolding written
unwritten fd k = refl

pub task_inside : task.cgroup_id ≡ get_cgroup_id busy.state.cgroup_manager "agent-1"
unfolding get_cgroup_id lookup
task_inside = refl

syscalls_reflected : SyscallsReflect 10 11 (applied_to sys_filter) (maps_of sys_filter)
syscalls_reflected = record {
  cgroup_found = λ k v e. e;
  syscall_found = λ k v e. e;
  syscall_initial = λ k e f. ground (arith, e, f);
}

ips_reflected : IpsReflect 12 (applied_to net_filter) (maps_of net_filter)
ips_reflected = record { ip_found = λ k v e. e; ip_absent = λ k e. e }

pub declares_cgroups : has_key "aegis_monitored_cgroups" (declared sys_filter) ≡ true
unfolding has_key lookup declared sys_filter_maps
declares_cgroups = refl

declares_syscalls : has_key "aegis_syscall_policy" (declared sys_filter) ≡ true
unfolding has_key lookup declared sys_filter_maps
declares_syscalls = refl

declares_ips : has_key "aegis_blocked_ips" (declared net_filter) ≡ true
unfolding has_key lookup declared net_filter_maps
declares_ips = refl

blocked_numbers :
    strict_python.syscall_rule.blocked_syscalls ≡ 161 ∷ 169 ∷ 176 ∷ 175 ∷ 321 ∷ 101 ∷ []
unfolding strict_python resolve_syscall_name syscall_name_map insert lookup contains
blocked_numbers = refl

blocked_small : All (λ nr. nr < 512) strict_python.syscall_rule.blocked_syscalls
blocked_small =
    rw blocked_numbers
      (omega arith, (omega arith, (omega arith, (omega arith, (omega arith, (omega arith, tt))))))

handle_sys_enter-apply_ebpf_policies_example :
    ((handle_sys_enter (maps_of sys_filter) task 101).killed ≡ true) ↔ (
      (contains 101 strict_python.syscall_rule.blocked_syscalls ≡ true)
      ⊎ (written 11 101 [] ≡ some 1))
unfolding new_instance
handle_sys_enter-apply_ebpf_policies_example =
    handle_sys_enter-apply_ebpf_policies (object_os sys_filter) descriptor_of (declared sys_filter)
      1 (λ t name. refl) loaded refl instance policy_engine strict_python (with_loader loaded) refl
      refl known placed declares_cgroups declares_syscalls
      (λ e. omega (arith, e), λ e. omega (arith, e), λ e. omega (arith, e)) refl (λ t nr h. refl)
      blocked_small (maps_of sys_filter) syscalls_reflected task 101 task_inside (omega arith)

aegis_cgroup_connect4-apply_ebpf_policies_example :
    ((aegis_cgroup_connect4 (λ n. 4272553641) (maps_of net_filter) task to_metadata).verdict ≡ 0)
    ↔ (4272553641 ≡ metadata_ip)
unfolding new_instance
aegis_cgroup_connect4-apply_ebpf_policies_example =
    aegis_cgroup_connect4-apply_ebpf_policies (object_os net_filter) descriptor_of
      (declared net_filter) 1 (λ t name. refl) loaded refl instance policy_engine strict_python
      (with_loader loaded) refl refl known placed declares_ips
      (λ e. omega (arith, e), λ e. omega (arith, e), λ e. omega (arith, e)) (λ t. refl)
      (λ k h. unwritten 12 k) (maps_of net_filter) ips_reflected (λ n. 4272553641) task to_metadata
      metadata_swapped refl
