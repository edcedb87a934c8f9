-- ===== src/Policy/Search.antt =====
-- The matcher decides whether an expression can be read, and what it finds is a reading.
use Prim.Native.Char.{Char}
use Prim.Native.String.{[], ◌∷◌}
use aegis_sandbox.Prelude.{
  String, ◌≡◌, ◌≢◌, ◌↔◌, inl, inr, none, some, List, Bool-cases, Option-cases, arith,
}
use aegis_sandbox.Policy.Regex.{
  accepts, one, star, optional, group, Regex, take_optional, match_here, search,
}
use aegis_sandbox.Policy.Reads.{
  Reads, done, reads_one, reads_star, leaves_optional, takes_optional, reads_group, take_star_sound,
  take_star_complete, grab_sound, grab_complete, or_else_inv,
}

match_here_sound : (p : Regex) (s g r : String) → match_here p s ≡ some (g, r) → Reads p s g r
unfolding match_here take_optional
match_here_sound List.[] s g r e =
    let a : [] ≡ g = ground arith in let b : s ≡ r = ground arith in rw (← a, ← b) done
match_here_sound (List.◌∷◌ (one t) p) [] g r e = ground arith
match_here_sound (List.◌∷◌ (one t) p) (c ∷ s) g r e = elim (Bool-cases (accepts t c)) [
  | inr fails ↦ ground arith
  | inl holds ↦ reads_one holds (match_here_sound p s g r (ground arith))
]
match_here_sound (List.◌∷◌ (star t) p) s g r e =
    let (taken, u, reads, rest) = take_star_sound t (match_here p) s (g, r) e in
    reads_star reads (match_here_sound p u g r rest)
match_here_sound (List.◌∷◌ (optional t) p) [] g r e = leaves_optional (match_here_sound p [] g r e)
match_here_sound (List.◌∷◌ (optional t) p) (c ∷ s) g r e = elim (Bool-cases (accepts t c)) [
  | inr fails ↦ leaves_optional (match_here_sound p (c ∷ s) g r (ground arith))
  | inl holds ↦ elim (or_else_inv (match_here p s) (match_here p (c ∷ s)) (g, r) (ground arith)) [
    | inl longer ↦ takes_optional holds (match_here_sound p s g r longer)
    | inr (_, shorter) ↦ leaves_optional (match_here_sound p (c ∷ s) g r shorter)
  ]
]
match_here_sound (List.◌∷◌ (group q) p) s g r e =
    let (u, h, takes, rest) = grab_sound q (match_here p) s g r e in
    reads_group takes (match_here_sound p u h r rest)

match_here_complete : (p : Regex) (s g r : String) → Reads p s g r → match_here p s ≢ none
unfolding match_here take_optional
match_here_complete p s g r done e = ground arith
match_here_complete p s g r (reads_one h d) e = match_here_complete _ _ _ _ d (ground arith)
match_here_complete (List.◌∷◌ (star t) p) s g r (reads_star h d) e =
    match_here_complete p _ g r d (take_star_complete t (match_here p) s _ _ h e)
match_here_complete p [] g r (leaves_optional d) e = match_here_complete _ _ _ _ d e
match_here_complete (List.◌∷◌ (optional t) p) (c ∷ s) g r (leaves_optional d) e =
    match_here_complete p (c ∷ s) g r d (ground arith)
match_here_complete p s g r (takes_optional h d) e = match_here_complete _ _ _ _ d (ground arith)
match_here_complete (List.◌∷◌ (group q) p) s g r (reads_group h d) e =
    match_here_complete p _ _ r d (grab_complete q (match_here p) s g _ h e)

-- A text is the end of another.
pub data EndsIn : String → String → Type 0 where
  all : {s : String} → EndsIn s s
  later : {u s : String} {c : Char} → EndsIn u s → EndsIn u (c ∷ s)

search_sound :
    (p : Regex) (s g r : String)
    → search p s ≡ some (g, r)
    → (u : String) × EndsIn u s × Reads p u g r
unfolding search
search_sound p [] g r e = ([], all, match_here_sound p [] g r e)
search_sound p (c ∷ s) g r e = elim (or_else_inv (match_here p (c ∷ s)) (search p s) (g, r) e) [
  | inl first ↦ (c ∷ s, all, match_here_sound p (c ∷ s) g r first)
  | inr (_, onward) ↦
      let (u, inside, reads) = search_sound p s g r onward in (u, later inside, reads)
]

search_complete : (p : Regex) (s u g r : String) → EndsIn u s → Reads p u g r → search p s ≢ none
unfolding search
search_complete p [] u g r all d e = match_here_complete p [] g r d e
search_complete p (c ∷ s) u g r all d e = match_here_complete p (c ∷ s) g r d (ground arith)
search_complete p (c ∷ s) u g r (later inside) d e =
    search_complete p s u g r inside d (ground arith)

-- For every expression and every text: what `search` finds is a reading that begins somewhere in
-- the text, and it finds nothing only if there is no reading anywhere in the text.
pub search_decides :
    (p : Regex) (s : String)
    → ((g r : String) → search p s ≡ some (g, r) → (u : String) × EndsIn u s × Reads p u g r)
      × ((search p s ≡ none) ↔ ((u g r : String) → EndsIn u s → ¬ Reads p u g r))
search_decides p s = (
  search_sound p s,
  (
    λ e u g r inside d. search_complete p s u g r inside d e,
    λ h. elim (Option-cases (search p s)) [
      | inl nothing ↦ nothing
      | inr ((g, r), found) ↦
          let (u, inside, reads) = search_sound p s g r found in absurd (h u g r inside reads)
    ],
  ),
)
