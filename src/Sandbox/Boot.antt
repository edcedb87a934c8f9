-- ===== src/Sandbox/Boot.antt =====
-- src/runtime/sandbox_manager.cpp: the steps that bring a microVM up. Each works on the instance that
-- `create_sandbox` builds.
use Prim.Native.String.{len}
use aegis_sandbox.Prelude.{
  ℕ, zero, suc, String, append, Bool, true, false, not, ◌&&◌, Option, none, some, List, [], ◌∷◌,
  decimal, ◌==◌,
}
use aegis_sandbox.Prelude.Int.{is_neg, is_pos}
use aegis_sandbox.Prelude.Paths.{join, prefix, until_nul, includes}
use aegis_sandbox.Core.{
  Status, success, err_micro_vm_boot_failed, err_snapshot_restore_failed,
  err_tap_interface_creation_failed, err_cgroup_quota_exceeded,
}
use aegis_sandbox.Os.{
  Os, Exec, removed, opened_tun, named_tap, closed, forked, slept_ms, opened_socket, connected,
  sent, received, pure, ◌>>=◌, ◌>>◌, record_event, ask, call, unless_return, unless_do, when,
}
use aegis_sandbox.Policy.Engine.{SecurityPolicy, metadata_ip, get_policy}
use aegis_sandbox.Cgroup.Manager.{get_cgroup_id}
use aegis_sandbox.Ebpf.Loader.{EbpfLoader, set_cgroup_monitored, set_syscall_policy, set_blocked_ip}
use aegis_sandbox.Sandbox.Types.{SandboxConfig, SandboxInstance, SandboxManager, on_loader}

-- The request that `std::format` builds.
unfoldable pub put_request : String → String → String
put_request endpoint json_payload = append "PUT " (
    append endpoint (
      append " HTTP/1.1\r\nHost: localhost\r\nContent-Type: application/json\r\nContent-Length: " (
        append (decimal (len json_payload)) (append "\r\nConnection: close\r\n\r\n" json_payload))))

unfoldable pub boot_payload : SandboxConfig → String
boot_payload config = append "{\"kernel_image_path\":\"" (
    append config.kernel_image_path
      "\",\"boot_args\":\"console=ttyS0 reboot=k panic=1 pci=off ip=172.16.0.2::172.16.0.1:255.255.255.0::eth0:off\"}")

unfoldable pub drive_payload : SandboxConfig → String
drive_payload config =
    append "{\"drive_id\":\"rootfs\",\"path_on_host\":\""
      (append config.rootfs_image_path "\",\"is_root_device\":true,\"is_read_only\":false}")

unfoldable pub machine_payload : SandboxConfig → String
machine_payload config = append "{\"vcpu_count\":" (
    append (decimal config.resource_limits.cpu_cores)
      (append ",\"mem_size_mib\":" (append (decimal config.resource_limits.memory_mb) "}")))

unfoldable pub snapshot_payload : SandboxConfig → String
snapshot_payload config = append "{\"snapshot_path\":\"" (
    append (join config.snapshot_dir_path "state.snap") (
      append "\",\"mem_file_path\":\""
        (append (join config.snapshot_dir_path "mem.snap") "\",\"resume_vm\":true}")))

module _ (os : Os) where
  -- Whether the answer is a 2xx. The path in the socket's address is cut off after 107 bytes, and the
  -- answer is read up to 1023 bytes.
  unfoldable pub send_unix_http_put : String → String → String → Exec SandboxManager Bool
  send_unix_http_put socket_path endpoint json_payload = do
    sock_fd ← call os.socket opened_socket
    unless_return (not (is_neg sock_fd)) false do
      let address = prefix 107 socket_path
      rc ← call (λ t. os.connect t sock_fd address) (connected sock_fd address)
      unless_do (not (is_neg rc)) (do record_event (closed sock_fd); pure false)
          do
            let request = put_request endpoint json_payload
            bytes_sent ← call (λ t. os.write t sock_fd request) (sent sock_fd request)
            answer ← call (λ t. os.read t sock_fd) (λ a. received sock_fd a.0)
            record_event (closed sock_fd)
            unless_return (is_pos bytes_sent && is_pos answer.0) false
                (pure (includes "HTTP/1.1 2" (until_nul (prefix 1023 answer.1))))

  unfoldable pub setup_tap_interface :
      SandboxInstance → Exec SandboxManager (Status × SandboxInstance)
  setup_tap_interface instance = do
    tap_fd ← call os.open_tun opened_tun
    unless_return (not (is_neg tap_fd)) (err_tap_interface_creation_failed, instance)
        do
          let tap_name = append "tap_" (prefix 8 instance.config.sandbox_id)
          rc ←
              call (λ t. os.set_iff t tap_fd (prefix 15 tap_name))
                (named_tap tap_fd (prefix 15 tap_name))
          unless_do (not (is_neg rc))
              (do record_event (closed tap_fd); pure (err_tap_interface_creation_failed, instance))
              (pure (
                success,
                record instance {
                  tap_fd = tap_fd;
                  metadata = record (instance.metadata) {
                    tap_device_name = tap_name;
                    guest_ip = "172.16.0.2";
                  };
                },
              ))

  -- The loop that waits for the socket, for the rounds that are left.
  unfoldable pub await_socket : ℕ → String → Exec SandboxManager Bool
  await_socket zero socket_path = pure false
  await_socket (suc i) socket_path = do
    there ← ask (λ t. os.exists t socket_path)
    unless_do (not there) (pure true) (do record_event (slept_ms 10); await_socket i socket_path)

  -- The parent's side; the child becomes the Firecracker process or exits.
  unfoldable pub spawn_firecracker_process :
      SandboxInstance → Exec SandboxManager (Status × SandboxInstance)
  spawn_firecracker_process instance = do
    stale ← ask (λ t. os.exists t instance.socket_path)
    when stale (record_event (removed instance.socket_path))
    pid ← call os.fork forked
    unless_return (not (is_neg pid)) (err_micro_vm_boot_failed, instance)
        do
          let spawned : SandboxInstance = record instance { firecracker_pid = pid }
          there ← await_socket 50 instance.socket_path
          unless_return there (err_micro_vm_boot_failed, spawned) (pure (success, spawned))

  unfoldable pub configure_firecracker_api : SandboxInstance → Exec SandboxManager Status
  configure_firecracker_api instance = do
    boot ← send_unix_http_put instance.socket_path "/boot-source" (boot_payload instance.config)
    unless_return boot err_micro_vm_boot_failed do
      drive ←
          send_unix_http_put instance.socket_path "/drives/rootfs" (drive_payload instance.config)
      unless_return drive err_micro_vm_boot_failed do
        config ←
            send_unix_http_put instance.socket_path "/machine-config"
              (machine_payload instance.config)
        unless_return config err_micro_vm_boot_failed do
          action ←
              send_unix_http_put instance.socket_path "/actions"
                "{\"action_type\":\"InstanceStart\"}"
          unless_return action err_micro_vm_boot_failed (pure success)

  unfoldable pub restore_firecracker_snapshot : SandboxInstance → Exec SandboxManager Status
  restore_firecracker_snapshot instance = do
    loaded ←
        send_unix_http_put instance.socket_path "/snapshot/load" (snapshot_payload instance.config)
    unless_return loaded err_snapshot_restore_failed (pure success)

  -- Step 6 of `create_sandbox`: restore the snapshot if that is wanted and there, or configure.
  unfoldable pub boot : SandboxInstance → Exec SandboxManager Status
  boot instance = do
    there ← ask (λ t. os.exists t instance.config.snapshot_dir_path)
    unless_do (instance.config.use_snapshot_restore && there) (configure_firecracker_api instance)
        (restore_firecracker_snapshot instance)

  -- A call of the loader, if there is one; its status is dropped.
  abbrev pub when_loader : Exec EbpfLoader Status → Exec SandboxManager (Unit {0})
  when_loader p m = elim m.state.ebpf_loader [ none ↦ (tt, m) | some l ↦ (tt, (on_loader l p m).1) ]

  -- The loop over the blocked syscalls of a policy.
  unfoldable pub block_syscalls : List ℕ → Exec SandboxManager (Unit {0})
  block_syscalls [] = pure tt
  block_syscalls (sys_nr ∷ rest) = do
    when_loader (set_syscall_policy os sys_nr 1)
    block_syscalls rest

  unfoldable pub load_policy : Option SecurityPolicy → Exec SandboxManager (Unit {0})
  load_policy none = pure tt
  load_policy (some policy) = do
    block_syscalls policy.syscall_rule.blocked_syscalls
    when policy.network_rule.block_cloud_metadata (when_loader (set_blocked_ip os metadata_ip true))

  unfoldable pub apply_ebpf_policies : SandboxInstance → Exec SandboxManager Status
  apply_ebpf_policies instance m = elim m.state.ebpf_loader [
    | none ↦ (success, m)
    | some loader ↦ elim m.state.policy_engine [
      | none ↦ (success, m)
      | some engine ↦
          (do
            let cgroup_id = get_cgroup_id m.state.cgroup_manager instance.config.sandbox_id
            unless_return (not (cgroup_id == 0)) err_cgroup_quota_exceeded do
              when_loader (set_cgroup_monitored os cgroup_id true)
              load_policy (get_policy engine instance.config.security_policy_name)
              pure success)
            m
    ]
  ]
