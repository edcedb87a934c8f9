-- ===== src/Sandbox/Threads.antt =====
-- The public methods of the sandbox manager called by any number of threads. What a method does between
-- its lock and its unlock is one step, and a method that does not wait for the mutex runs as it likes.
use aegis_sandbox.Prelude.{
  ℕ, ◌≡◌, true, false, Option, none, some, List, [], ◌∷◌, ◌==◌, if◌then◌else◌,
}
use aegis_sandbox.Core.{Status, SandboxMetadata}
use aegis_sandbox.Os.{Os, Machine}
use aegis_sandbox.Sandbox.Types.{ExecutionResult, SandboxManager, Run}
use aegis_sandbox.Sandbox.Manager.{
  set_locked, create_sandbox, execute_code, terminate_sandbox, terminate_all, get_metadata,
}
use aegis_sandbox.Cgroup.Manager.{is_success}
use aegis_sandbox.Sandbox.Boot.{boot, apply_ebpf_policies}
use aegis_sandbox.Sandbox.Steps.{prepare}
use aegis_sandbox.Sandbox.History.{Command, creates, runs_code, terminates, terminates_all, queries}

-- What a method returns to its thread.
pub data Answer : Type 0 where
  created terminated : Status → Answer
  executed : ExecutionResult → Answer
  swept : Answer
  shown : Option SandboxMetadata → Answer

abbrev pub answers :
    {A : Type 0}
    → (A → Answer)
    → Option (A × Machine SandboxManager)
    → Option (Answer × Machine SandboxManager)
answers f none = none
answers f (some (a, m)) = some (f a, m)

-- A call with its answer, on a machine whose mutex is free; `none` if it does not return.
unfoldable pub call : Os → Command → Run Answer
call os (creates config) m = answers created (create_sandbox os config m)
call os (runs_code id code) m = answers executed (execute_code os id code m)
call os (terminates id) m = answers terminated (terminate_sandbox os id m)
call os terminates_all m = answers (λ u. swept) (terminate_all os m)
call os (queries id) m = answers shown (get_metadata id m)

-- The machine at which a call that does not return waits for ever: a creation holds the mutex then, and
-- has prepared the sandbox, tried to boot it, and after that to apply its policies.
unfoldable pub left_behind : Os → Command → Machine SandboxManager → Machine SandboxManager
left_behind os (creates config) m =
    let (prepared, after_prepare) = prepare os config (set_locked true m) in
    let (booted, after_boot) = boot os prepared.1 after_prepare in
    if is_success booted then (apply_ebpf_policies os prepared.1 after_boot).1 else after_boot
left_behind os (runs_code id code) m = set_locked true m
left_behind os (terminates id) m = set_locked true m
left_behind os terminates_all m = set_locked true m
left_behind os (queries id) m = set_locked true m

-- A thread outside of the manager, one that has called a method, one inside that holds the mutex, and one
-- that holds it and waits for it.
pub data Place : Type 0 where
  outside : Place
  waiting inside stuck : Command → Place

-- The call of a thread that holds the mutex.
unfoldable pub holding : Place → Option Command
holding outside = none
holding (waiting c) = none
holding (inside c) = some c
holding (stuck c) = some c

pub record System : Type 0 where
  pub machine : Machine SandboxManager
  pub place : ℕ → Place
  -- The calls that have returned, by their threads, the newest first.
  pub done : List (ℕ × Command × Answer)

abbrev pub started : Machine SandboxManager → System
started m = record { machine = m; place = λ i. outside; done = [] }

abbrev pub moved : (ℕ → Place) → ℕ → Place → ℕ → Place
moved place i p j = if i == j then p else place j

module _ (os : Os) where
  pub data Step : System → System → Type 0 where
    enters :
        {s : System} (i : ℕ) (c : Command)
        → s.place i ≡ outside
        → Step s (record s { place = moved s.place i (waiting c) })
    -- The constructor of the `lock_guard`.
    locks :
        {s : System} (i : ℕ) (c : Command)
        → s.place i ≡ waiting c
        → s.machine.state.locked ≡ false
        → Step s
            (record s { machine = set_locked true s.machine; place = moved s.place i (inside c) })
    -- A method that does not wait for the mutex goes on although another thread holds it.
    passes :
        {s : System} (i : ℕ) (c : Command) (a : Answer) (n : Machine SandboxManager)
        → s.place i ≡ waiting c
        → s.machine.state.locked ≡ true
        → call os c s.machine ≡ some (a, n)
        → Step s
            (record { machine = n; place = moved s.place i outside; done = (i, c, a) ∷ s.done })
    -- What a method does before it waits for the mutex that its thread holds.
    blocks :
        {s : System} (i : ℕ) (c : Command)
        → s.place i ≡ inside c
        → call os c (set_locked false s.machine) ≡ none
        → Step s (record s {
          machine = left_behind os c (set_locked false s.machine);
          place = moved s.place i (stuck c);
        })
    -- The rest of the method, with the destructor of the `lock_guard`.
    returns :
        {s : System} (i : ℕ) (c : Command) (a : Answer) (n : Machine SandboxManager)
        → s.place i ≡ inside c
        → call os c (set_locked false s.machine) ≡ some (a, n)
        → Step s
            (record { machine = n; place = moved s.place i outside; done = (i, c, a) ∷ s.done })

  -- What the threads can come to, in every order of their steps.
  pub data Reaches (m : Machine SandboxManager) : System → Type 0 where
    starting : Reaches m (started m)
    next : {s n : System} → Reaches m s → Step s n → Reaches m n

  -- The steps from one state on.
  pub data Leads : System → System → Type 0 where
    stays : {s : System} → Leads s s
    onward : {s t n : System} → Leads s t → Step t n → Leads s n

  -- The calls of a history one after the other, with the answers that they give then.
  pub data Replays
      : Machine SandboxManager → List (ℕ × Command × Answer) → Machine SandboxManager → Type 0 where
    no_calls : {m : Machine SandboxManager} → Replays m [] m
    one_more :
        {m k n : Machine SandboxManager} {h : List (ℕ × Command × Answer)} {i : ℕ} {c : Command}
        {a : Answer}
        → Replays m h k
        → call os c k ≡ some (a, n)
        → Replays m ((i, c, a) ∷ h) n
