-- ===== src/Sandbox/Manager.antt =====
-- src/runtime/sandbox_manager.cpp: the public methods of the sandbox manager. `with_lock` takes the
-- manager's mutex and releases it when the method returns; `create_sandbox` calls
-- `terminate_sandbox` while it holds the mutex.
use aegis_sandbox.Prelude.{
  ℕ, ◌-◌, ◌∷◌, String, Bool, true, false, not, ◌||◌, Option, none, some, [], lookup, assign,
  has_key, if◌then◌else◌,
}
use aegis_sandbox.Prelude.Paths.{is_empty}
use aegis_sandbox.Core.{Status, success, err_invalid_sandbox_id, SandboxMetadata}
use aegis_sandbox.Os.{Os, Trace, Machine, Exec, made_dirs, ask}
use aegis_sandbox.Policy.Engine.{PolicyEngine}
use aegis_sandbox.Cgroup.Manager.{is_success, cgroup_manager}
use aegis_sandbox.Ebpf.Loader.{EbpfLoader}
use aegis_sandbox.Sandbox.Types.{
  SandboxConfig, ExecutionResult, SandboxInstance, SandboxManager, Run,
}
use aegis_sandbox.Sandbox.Boot.{boot, apply_ebpf_policies}
use aegis_sandbox.Sandbox.Steps.{
  change_sandboxes, running_instance, prepare, terminate, terminate_every, execute,
}

-- Sequencing of methods that may not return.
abbrev pub pure : {A : Type 0} → A → Run A
pure a m = some (a, m)

abbrev pub lift : {A : Type 0} → Exec SandboxManager A → Run A
lift p m = some (p m)

infixl 5 ◌>>=◌ ◌>>◌
abbrev pub ◌>>=◌ : {A B : Type 0} → Run A → (A → Run B) → Run B
◌>>=◌ p f m = elim (p m) [ none ↦ none | some (a, m') ↦ f a m' ]

abbrev pub ◌>>◌ : {A B : Type 0} → Run A → Run B → Run B
p >> q = p >>= λ _. q

-- `if (!b) { p; return …; }` and the rest.
abbrev pub or_do : {A : Type 0} → Bool → Run A → Run A → Run A
or_do b p rest m = if b then rest m else p m

abbrev pub set_locked : Bool → Machine SandboxManager → Machine SandboxManager
set_locked b m = record m { state = record (m.state) { locked = b } }

-- `std::lock_guard<std::mutex> lock(m_mutex);` and the body. The one thread that the model follows
-- waits for ever for a mutex that it has taken itself.
unfoldable pub with_lock : {A : Type 0} → Run A → Run A
with_lock body m = if m.state.locked then none else elim (body (set_locked true m)) [
  | none ↦ none
  | some (a, m') ↦ some (a, set_locked false m')
]

unfoldable pub get_metadata : String → Run (Option SandboxMetadata)
get_metadata sandbox_id = with_lock λ m. some (
  elim (lookup sandbox_id m.state.sandboxes) [
    | none ↦ none
    | some instance ↦ some instance.metadata
  ],
  m,
)

module _ (os : Os) where
  -- The constructor, with the default root of the cgroup manager.
  unfoldable pub sandbox_manager :
      Option EbpfLoader → Option PolicyEngine → String → Trace → Machine SandboxManager
  sandbox_manager loader engine base t =
      let (cgroups, t') = cgroup_manager os "/sys/fs/cgroup/aegis" t in
      record {
        state = record {
          ebpf_loader = loader;
          policy_engine = engine;
          cgroup_manager = cgroups;
          base_runtime_dir = base;
          locked = false;
          sandboxes = [];
        };
        trace = made_dirs base (os.create_directories t' base) ∷ t';
      }

  unfoldable pub execute_code : String → String → Run ExecutionResult
  execute_code sandbox_id code_payload = with_lock (lift (execute os sandbox_id code_payload))

  unfoldable pub terminate_sandbox : String → Run Status
  terminate_sandbox sandbox_id = with_lock (lift (terminate os sandbox_id))

  -- Also what the destructor does.
  unfoldable pub terminate_all : Run (Unit {0})
  terminate_all = with_lock (lift (terminate_every os))

  -- Steps 6 and 7, and the registration of the sandbox.
  unfoldable pub start_instance : SandboxInstance → ℕ → Run Status
  start_instance instance start_time = do
    let id = instance.config.sandbox_id
    booted ← lift (boot os instance)
    or_do (is_success booted) (do terminate_sandbox id; pure booted)
        do
          applied ← lift (apply_ebpf_policies os instance)
          or_do (is_success applied) (do terminate_sandbox id; pure applied)
              do
                end_time ← lift (ask os.now)
                lift (
                    change_sandboxes
                      (assign id (running_instance instance (end_time - start_time))))
                pure success

  unfoldable pub create_sandbox : SandboxConfig → Run Status
  create_sandbox config = with_lock λ m.
      (let refused = is_empty config.sandbox_id || has_key config.sandbox_id m.state.sandboxes in
          or_do (not refused) (pure err_invalid_sandbox_id) do
            start_time ← lift (ask os.now)
            prepared ← lift (prepare os config)
            or_do (is_success prepared.0) (pure prepared.0) (start_instance prepared.1 start_time))
        m
