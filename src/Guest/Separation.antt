-- ===== src/Guest/Separation.antt =====
-- The scripts of different connections do not get into each other's way.
use text.Mathlib.TextLemmas.{append_cancel_left, append_cancel_right}
use aegis_sandbox.Prelude.{
  ℕ, ◌<◌, ◌^◌, ◌≡◌, ◌≢◌, refl, ◌∙◌, String, append, false, Option, none, some, List, All, arith,
  ◌==◌, str_eq, eq_iff, eq_refl, decimal, decimal_injective, inl, inr, Bool-cases,
}
use aegis_sandbox.Guest.Agent.{ExecutionRequest, script_path}
use aegis_sandbox.Guest.Handlers.{
  Stage, finished, reading, timed, written, answering, Agent, update, put_file, Step, accepts,
  refuses, reads_clock, writes, fails_to_write, runs, removes, Reaches, starting, next,
}
use aegis_sandbox.Guest.Stamps.{Stamped, here, reached-Stamped, IsDistinct, Step-IsDistinct}

script_path_injective : (t u : ℕ) → t < 2 ^ 63 → u < 2 ^ 63 → script_path t ≡ script_path u → t ≡ u
unfolding script_path
script_path_injective t u h k e =
    let names : append (decimal t) ".py" ≡ append (decimal u) ".py" =
      append_cancel_left "/tmp/agent_script_" _ _ e in
    decimal_injective t u (omega arith) (omega arith) (append_cancel_right _ _ ".py" names)

-- Each script that is written and not yet run has the code of its request.
abbrev Scripts : Agent → Type 0
Scripts a =
    (k time : ℕ) (req : ExecutionRequest)
    → a.stage k ≡ written req time
    → a.files (script_path time) ≡ some req.code_payload

abbrev Own : List (String × Option String) → Type 0
Own ran = All (λ e. e.1 ≡ some e.0) ran

put_file_other :
    (files : String → Option String) (t u : ℕ) (content : Option String)
    → t < 2 ^ 63
    → u < 2 ^ 63
    → t ≢ u
    → put_file files (script_path t) content (script_path u) ≡ files (script_path u)
put_file_other files t u content h k other =
    elim (Bool-cases (str_eq (script_path t) (script_path u))) [
      | inl same ↦
          absurd (
            other (script_path_injective t u h k ((eq_iff (script_path t) (script_path u)).0 same)))
      | inr different ↦ rw different refl
    ]

module _ (a : Agent) (s : Stamped a) (distinct : IsDistinct a) (scripts : Scripts a) where
  -- A handler that moves on, to a stage at which no script is written, and touches no file.
  moves-Scripts :
      (i : ℕ) (to : Stage)
      → ((req : ExecutionRequest) (time : ℕ) → to ≢ written req time)
      → (k time : ℕ) (req : ExecutionRequest) → update a.stage i to k ≡ written req time
      → a.files (script_path time) ≡ some req.code_payload
  moves-Scripts i to apart k time req at = elim (Bool-cases (i == k)) [
    | inl same ↦ absurd (apart req time (ground (arith, at, same)))
    | inr other ↦ scripts k time req (ground (arith, at, other))
  ]

  -- What a handler does to the file of its own script leaves those of the others.
  others-Scripts :
      (i t : ℕ) (content : Option String) (k time : ℕ) (req : ExecutionRequest)
      → a.stamp i ≡ some t
      → t < 2 ^ 63
      → (i == k) ≡ false
      → a.stage k ≡ written req time
      → put_file a.files (script_path t) content (script_path time) ≡ some req.code_payload
  others-Scripts i t content k time req mine small other at =
      let (theirs, less) = here a k s (written req time) at in
      let apart : t ≢ time = λ e.
        let same : i ≡ k = distinct i k time (ground (arith, mine, e)) theirs in
        absurd ground (arith, other, same) in
      put_file_other a.files t time content small less apart ∙ scripts k time req at

  ends-Scripts :
      (i t : ℕ) (content : Option String) (k time : ℕ) (req : ExecutionRequest)
      → a.stamp i ≡ some t
      → t < 2 ^ 63
      → update a.stage i finished k ≡ written req time
      → put_file a.files (script_path t) content (script_path time) ≡ some req.code_payload
  ends-Scripts i t content k time req mine small at = elim (Bool-cases (i == k)) [
    | inl same ↦ absurd ground (arith, at, same)
    | inr other ↦ others-Scripts i t content k time req mine small other (ground (arith, at, other))
  ]

  written-Scripts :
      (i t : ℕ) (wanted : ExecutionRequest) (k time : ℕ) (req : ExecutionRequest)
      → a.stamp i ≡ some t
      → t < 2 ^ 63
      → update a.stage i (written wanted t) k ≡ written req time
      → put_file a.files (script_path t) (some wanted.code_payload) (script_path time)
        ≡ some req.code_payload
  written-Scripts i t wanted k time req mine small at = elim (Bool-cases (i == k)) [
    | inl same ↦
        let e : written wanted t ≡ written req time = ground (arith, at, same) in
        let times : t ≡ time = ground (arith, e) in
        let requests : wanted ≡ req = ground (arith, e) in
        ground (arith, times, requests, eq_refl (script_path time))
    | inr other ↦
        others-Scripts i t (some wanted.code_payload) k time req mine small other
          (ground (arith, at, other))
  ]

-- Everything is in order as long as the stamps are distinct.
abbrev InOrder : Agent → Type 0
InOrder a = Scripts a × Own a.ran

Step-InOrder : (a b : Agent) → Step a b → Stamped a → IsDistinct a → InOrder a → InOrder b
Step-InOrder a b (accepts i req at) s d (w, o) =
    (λ k t r e. moves-Scripts a s d w i (reading req) (λ x y h. ground (arith, h)) k t r e, o)
Step-InOrder a b (refuses i at) s d (w, o) =
    (λ k t r e. moves-Scripts a s d w i finished (λ x y h. ground (arith, h)) k t r e, o)
Step-InOrder a b (reads_clock i req time at small) s d (w, o) =
    (λ k t r e. moves-Scripts a s d w i (timed req time) (λ x y h. ground (arith, h)) k t r e, o)
Step-InOrder a b (writes i req time at) s d (w, o) =
    let (mine, small) = here a i s (timed req time) at in
    (λ k t r e. written-Scripts a s d w i time req k t r mine small e, o)
Step-InOrder a b (fails_to_write i req time rest at) s d (w, o) =
    let (mine, small) = here a i s (timed req time) at in
    (λ k t r e. ends-Scripts a s d w i time rest k t r mine small e, o)
Step-InOrder a b (runs i req time left at alone) s d (w, o) = (
  λ k t r e.
      alone t ∙ moves-Scripts a s d w i (answering req time) (λ x y h. ground (arith, h)) k t r e,
  (w i time req at, o),
)
Step-InOrder a b (removes i req time at) s d (w, o) =
    let (mine, small) = here a i s (answering req time) at in
    (λ k t r e. ends-Scripts a s d w i time none k t r mine small e, o)

reached-InOrder :
    (files : String → Option String) (a : Agent) → Reaches files a → IsDistinct a → InOrder a
reached-InOrder files a starting d = (λ k t r e. ground (arith, e), tt)
reached-InOrder files a (next {a = t} r x) d =
    let s : Stamped t = reached-Stamped files t r in
    let before : IsDistinct t = Step-IsDistinct t a x s d in
    Step-InOrder t a x s before (reached-InOrder files t r before)

-- In every order of the steps of any number of handlers, whose commands leave the scripts of the agent
-- alone: if no two of them have read the same time, every
-- script that was run had in its file the code of the request that it was run for.
pub handlers_run_own :
    (files : String → Option String) (a : Agent)
    → Reaches files a
    → IsDistinct a
    → All (λ e. e.1 ≡ some e.0) a.ran
handlers_run_own files a r d = (reached-InOrder files a r d).1
