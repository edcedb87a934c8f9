-- ===== src/Tests/Machines.antt =====
-- Operating systems for the tests.
use aegis_sandbox.Prelude.{
  ℕ, String, has_key, true, some, none, [], ◌∷◌, length, str_eq, if◌then◌else◌,
}
use aegis_sandbox.Prelude.Int.{pos, minus_one}
use aegis_sandbox.Kernel.Maps.{BpfObject, declared}
use aegis_sandbox.Os.{Os}

-- Every call succeeds, and the clock counts the calls.
abbrev pub quiet_os : Os
quiet_os = record {
  create_directories = λ t path. true;
  exists = λ t path. true;
  opens_file = λ t path. true;
  accepts = λ t path value. true;
  stat = λ t path. some 77;
  open_dir = λ t path. pos 5;
  open_tun = λ t. pos 6;
  set_iff = λ t fd name. pos 0;
  fork = λ t. pos 4242;
  now = λ t. length t;
  socket = λ t. pos 8;
  connect = λ t fd address. pos 0;
  write = λ t fd bytes. pos 10;
  read = λ t fd. (pos 12, "HTTP/1.1 204");
  bpf_open = λ t path. some 1;
  bpf_load = λ t obj. pos 0;
  bpf_programs = λ t obj. "sys_enter_filter" ∷ [];
  bpf_has_program = λ t obj name. true;
  bpf_attach = λ t obj name target. some 2;
  bpf_map_fd = λ t obj name. some (pos 9);
  bpf_update = λ t fd key value. pos 0;
}

-- Nothing listens on a socket.
abbrev pub deaf_os : Os
deaf_os = record quiet_os { connect = λ t fd address. minus_one }

abbrev pub descriptor_of : String → ℕ
descriptor_of name =
    if str_eq name "aegis_monitored_cgroups"
    then 10
    else if str_eq name "aegis_syscall_policy"
    then 11
    else if str_eq name "aegis_blocked_ips"
    then 12
    else 13

-- A held object is one of the repository.
abbrev pub object_os : BpfObject → Os
object_os o = record quiet_os {
  bpf_map_fd =
      λ t obj name. if has_key name (declared o) then some (pos (descriptor_of name)) else none;
}
