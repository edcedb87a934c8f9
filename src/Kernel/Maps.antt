-- ===== src/Kernel/Maps.antt =====
-- The maps that ebpf/sys_filter.bpf.c, ebpf/net_filter.bpf.c and ebpf/process_monitor.bpf.c declare. Each of
-- the three is compiled to an object of its own.
use aegis_sandbox.Prelude.{ℕ, String, List, [], ◌∷◌}

pub data MapType : Type 0 where
  hash array ringbuf : MapType

-- Sizes in bytes; a ring buffer has neither keys nor values.
pub record MapDefinition : Type 0 where
  pub map_type : MapType
  pub max_entries : ℕ
  pub key_size : ℕ
  pub value_size : ℕ

unfoldable pub sys_filter_maps : List (String × MapDefinition)
sys_filter_maps =
    (
      "aegis_monitored_cgroups",
      record { map_type = hash; max_entries = 1024; key_size = 8; value_size = 1 },
    )
    ∷ (
      "aegis_syscall_policy",
      record { map_type = array; max_entries = 512; key_size = 4; value_size = 1 },
    )
    ∷ (
      "aegis_security_events",
      record { map_type = ringbuf; max_entries = 262144; key_size = 0; value_size = 0 },
    )
    ∷ []

unfoldable pub net_filter_maps : List (String × MapDefinition)
net_filter_maps =
    (
      "aegis_blocked_ips",
      record { map_type = hash; max_entries = 4096; key_size = 4; value_size = 1 },
    )
    ∷ (
      "aegis_net_events",
      record { map_type = ringbuf; max_entries = 262144; key_size = 0; value_size = 0 },
    )
    ∷ []

unfoldable pub process_monitor_maps : List (String × MapDefinition)
process_monitor_maps =
    (
      "aegis_monitored_cgroups_proc",
      record { map_type = hash; max_entries = 1024; key_size = 8; value_size = 1 },
    )
    ∷ (
      "aegis_process_events",
      record { map_type = ringbuf; max_entries = 262144; key_size = 0; value_size = 0 },
    )
    ∷ []

pub data BpfObject : Type 0 where
  sys_filter net_filter process_monitor : BpfObject

unfoldable pub declared : BpfObject → List (String × MapDefinition)
declared sys_filter = sys_filter_maps
declared net_filter = net_filter_maps
declared process_monitor = process_monitor_maps
