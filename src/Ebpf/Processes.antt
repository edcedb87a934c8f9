-- ===== src/Ebpf/Processes.antt =====
-- The events of the process monitor, through the bytes of the kernel's struct.
use aegis_sandbox.Prelude.{
  ℕ, ◌<◌, ◌≤◌, ◌^◌, ◌≡◌, refl, ap, Bool, true, false, not, some, List, [], ◌∷◌, ◌++◌, ◌==◌, length,
  length-append, take, drop, All, arith, if◌then◌else◌,
}
use aegis_sandbox.Ebpf.Layout.{
  to_le, from_le, from_le-to_le, field, number, c_string, pad, length-pad, c_string-pad, take-pad,
  drop-pad,
}
use aegis_sandbox.Ebpf.RingBuffer.{
  SecurityProcessEvent, process_event, read_process_event, decode_event,
}
use aegis_sandbox.Ebpf.Decoding.{sizes}

abbrev pub flag : Bool → ℕ
flag b = if b then 1 else 0

-- The bytes of an event of the process monitor, with the padding behind it.
unfoldable pub process_bytes : SecurityProcessEvent → List ℕ
process_bytes e =
    to_le 8 e.timestamp_ns
    ++ (to_le 4 e.pid
        ++ (to_le 4 e.tgid
            ++ (to_le 4 e.ppid
                ++ (to_le 4 e.cgroup_id
                    ++ (to_le 4 e.uid
                        ++ (to_le 4 e.gid
                            ++ (flag e.is_privilege_escalation
                                ∷ e.action_taken
                                ∷ (pad 16 e.comm
                                    ++ (pad 256 e.filename ++ (0 ∷ 0 ∷ 0 ∷ 0 ∷ 0 ∷ 0 ∷ []))))))))))

pub record ProcessFits (e : SecurityProcessEvent) : Type 0 where
  pub timestamp : e.timestamp_ns < 256 ^ 8
  pub pid : e.pid < 256 ^ 4
  pub tgid : e.tgid < 256 ^ 4
  pub ppid : e.ppid < 256 ^ 4
  pub cgroup_id : e.cgroup_id < 256 ^ 4
  pub uid : e.uid < 256 ^ 4
  pub gid : e.gid < 256 ^ 4
  pub comm : length e.comm ≤ 16
  pub comm_text : All (λ c. 0 < c) e.comm
  pub filename : length e.filename ≤ 256
  pub filename_text : All (λ c. 0 < c) e.filename

zeros : List ℕ
zeros = 0 ∷ 0 ∷ 0 ∷ 0 ∷ 0 ∷ 0 ∷ []

length-process_bytes : (e : SecurityProcessEvent) → length (process_bytes e) ≡ 312
unfolding process_bytes to_le zeros
length-process_bytes e = omega (
  arith,
  length-append (pad 16 e.comm) (pad 256 e.filename ++ zeros),
  length-append (pad 256 e.filename) zeros,
  length-pad 16 e.comm,
  length-pad 256 e.filename,
)

read-process_bytes :
    (e : SecurityProcessEvent) → ProcessFits e → read_process_event (process_bytes e) ≡ e
unfolding read_process_event process_bytes number field to_le from_le zeros
read-process_bytes e f = λ i. record {
  timestamp_ns = from_le-to_le 8 e.timestamp_ns f.timestamp i;
  pid = from_le-to_le 4 e.pid f.pid i;
  tgid = from_le-to_le 4 e.tgid f.tgid i;
  ppid = from_le-to_le 4 e.ppid f.ppid i;
  cgroup_id = from_le-to_le 4 e.cgroup_id f.cgroup_id i;
  uid = from_le-to_le 4 e.uid f.uid i;
  gid = from_le-to_le 4 e.gid f.gid i;
  is_privilege_escalation = escalation e.is_privilege_escalation i;
  action_taken = action i;
  comm = comm i;
  filename = filename i;
}
  where
    escalation : (b : Bool) → not (from_le (flag b ∷ []) == 0) ≡ b
    escalation true = refl
    escalation false = refl

    action : from_le (e.action_taken ∷ []) ≡ e.action_taken
    action = omega arith

    comm : c_string (take 16 (pad 16 e.comm ++ (pad 256 e.filename ++ zeros))) ≡ e.comm
    comm =
        rw (take-pad 16 e.comm (pad 256 e.filename ++ zeros))
          (c_string-pad 16 e.comm f.comm f.comm_text)

    filename :
        c_string (take 256 (drop 16 (pad 16 e.comm ++ (pad 256 e.filename ++ zeros)))) ≡ e.filename
    filename =
        rw (drop-pad 16 e.comm (pad 256 e.filename ++ zeros), take-pad 256 e.filename zeros)
          (c_string-pad 256 e.filename f.filename f.filename_text)

-- The callback gets the process event that the kernel submitted.
pub decode_event-process_bytes :
    (e : SecurityProcessEvent)
    → ProcessFits e
    → decode_event (process_bytes e) ≡ some (process_event e)
unfolding decode_event
decode_event-process_bytes e f =
    rw (length-process_bytes e, sizes.0, sizes.1, sizes.2)
      (ap (λ s. some (process_event s)) (read-process_bytes e f))
