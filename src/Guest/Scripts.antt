-- ===== src/Guest/Scripts.antt =====
-- What the agent leaves behind: no script, and one answer for each connection.
use aegis_sandbox.Prelude.{
  ℕ, suc, ◌+◌, ◌≡◌, inl, inr, refl, String, List, [], ◌∷◌, length, str_eq, if◌then◌else◌, arith,
  Option-cases,
}
use aegis_sandbox.Guest.Agent.{
  Decoded, GuestEvent, wrote_script, answered, removed_script, closed_connection, GuestTrace,
  GuestOs, script_path, run_script, write_script, handle_connection, serve,
}
use aegis_sandbox.Guest.Limits.{Decoded-cases}

-- How often a trace does something.
unfoldable pub total : (GuestEvent → ℕ) → GuestTrace → ℕ
total f [] = 0
total f (e ∷ t) = f e + total f t

unfoldable pub writes : String → GuestEvent → ℕ
writes p (wrote_script q) = if str_eq p q then 1 else 0
writes p _ = 0

unfoldable pub removes : String → GuestEvent → ℕ
removes p (removed_script q) = if str_eq p q then 1 else 0
removes p _ = 0

unfoldable pub answers : GuestEvent → ℕ
answers (answered resp) = 1
answers _ = 0

unfoldable pub closes : GuestEvent → ℕ
closes closed_connection = 1
closes _ = 0

-- A trace `u` goes on from `t` with one answer and one closed connection, and removes what it writes.
abbrev Clean : String → GuestTrace → GuestTrace → Type 0
Clean p t u =
    (total (writes p) u + total (removes p) t ≡ total (removes p) u + total (writes p) t)
    × (total answers u ≡ suc (total answers t))
    × (total closes u ≡ suc (total closes t))

module _ (os : GuestOs) (decode : String → Decoded) where
  handle_connection-Clean :
      (p text : String) (t : GuestTrace) → Clean p t (handle_connection os decode text t).1
  unfolding handle_connection write_script run_script total writes removes answers closes
  handle_connection-Clean p text t = elim (Decoded-cases (decode text)) [
    | inl (e, bad) ↦ ground (arith, bad)
    | inr (req, good) ↦
        elim (Option-cases (os.write_file t (script_path (os.unix_nano t)) req.code_payload)) [
          | inl written ↦ ground (arith, good, written)
          | inr (e, failed) ↦ ground (arith, good, failed)
        ]
  ]

  -- Whatever texts connections bring one after the other, and whatever the system answers: every script
  -- that the agent has written is removed as often as it was written, and the agent has answered
  -- and closed each connection once.
  pub serve_clean :
      (p : String) (texts : List String)
      → let t = serve os decode texts in
        (total (writes p) t ≡ total (removes p) t)
        × (total answers t ≡ length texts)
        × (total closes t ≡ length texts)
  unfolding serve total
  serve_clean p [] = (refl, refl, refl)
  serve_clean p (text ∷ texts) =
      let (kept, one_answer, one_close) = handle_connection-Clean p text (serve os decode texts) in
      let (even, said, closed) = serve_clean p texts in (omega arith, omega arith, omega arith)
