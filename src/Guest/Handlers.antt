-- ===== src/Guest/Handlers.antt =====
-- guest/cmd/agent/main.go: the handlers of connections, each a goroutine, in every order of their steps.
-- They share the directory /tmp.
use aegis_sandbox.Prelude.{
  ℕ, ◌<◌, ◌^◌, ◌≡◌, String, Option, none, some, List, [], ◌∷◌, ◌==◌, str_eq, if◌then◌else◌,
}
use aegis_sandbox.Guest.Agent.{ExecutionRequest, script_path}

-- How far a handler is: before its connection, with a request, with the time for the name of its script, with
-- the script written, with the script run and its removal deferred, and at its end.
pub data Stage : Type 0 where
  idle finished : Stage
  reading : ExecutionRequest → Stage
  timed written answering : ExecutionRequest → ℕ → Stage

pub record Agent : Type 0 where
  pub stage : ℕ → Stage
  -- The clock that a handler has read.
  pub stamp : ℕ → Option ℕ
  pub files : String → Option String
  -- The codes of the requests whose scripts were run, each with what was in the script's file.
  pub ran : List (String × Option String)

abbrev pub update : {A : Type 0} → (ℕ → A) → ℕ → A → ℕ → A
update f i a j = if i == j then a else f j

abbrev pub put_file : (String → Option String) → String → Option String → String → Option String
put_file files path content q = if str_eq path q then content else files q

abbrev pub started : (String → Option String) → Agent
started files = record { stage = λ i. idle; stamp = λ i. none; files = files; ran = [] }

pub data Step (a : Agent) : Agent → Type 0 where
  accepts :
      (i : ℕ) (req : ExecutionRequest)
      → a.stage i ≡ idle
      → Step a (record a { stage = update a.stage i (reading req) })
  -- What is no request is answered, and the connection closed.
  refuses : (i : ℕ) → a.stage i ≡ idle → Step a (record a { stage = update a.stage i finished })
  -- `time.Now().UnixNano()`, which is an int64.
  reads_clock :
      (i : ℕ) (req : ExecutionRequest) (time : ℕ)
      → a.stage i ≡ reading req
      → time < 2 ^ 63
      → Step a (record a {
        stage = update a.stage i (timed req time);
        stamp = update a.stamp i (some time);
      })
  writes :
      (i : ℕ) (req : ExecutionRequest) (time : ℕ)
      → a.stage i ≡ timed req time
      → Step a (record a {
        stage = update a.stage i (written req time);
        files = put_file a.files (script_path time) (some req.code_payload);
      })
  -- `os.WriteFile` fails, and leaves of the file what it likes.
  fails_to_write :
      (i : ℕ) (req : ExecutionRequest) (time : ℕ) (rest : Option String)
      → a.stage i ≡ timed req time
      → Step a (record a {
        stage = update a.stage i finished;
        files = put_file a.files (script_path time) rest;
      })
  -- The command reads the script at its start, and is answered at its end. It may leave other files than
  -- it found, but is taken to leave the scripts of the agent alone.
  runs :
      (i : ℕ) (req : ExecutionRequest) (time : ℕ) (left : String → Option String)
      → a.stage i ≡ written req time
      → ((t : ℕ) → left (script_path t) ≡ a.files (script_path t))
      → Step a (record a {
        stage = update a.stage i (answering req time);
        files = left;
        ran = (req.code_payload, a.files (script_path time)) ∷ a.ran;
      })
  removes :
      (i : ℕ) (req : ExecutionRequest) (time : ℕ)
      → a.stage i ≡ answering req time
      → Step a (record a {
        stage = update a.stage i finished;
        files = put_file a.files (script_path time) none;
      })

pub data Reaches (files : String → Option String) : Agent → Type 0 where
  starting : Reaches files (started files)
  next : {a b : Agent} → Reaches files a → Step a b → Reaches files b
