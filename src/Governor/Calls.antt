-- ===== src/Governor/Calls.antt =====
-- Histories of calls of the governor of src/governor.rs: what every history keeps of one model's state.
use llm_rate_limit_proxy.Base.{
  ℕ, ◌≡◌, ◌⊎◌, inl, inr, refl, sym, subst, true, false, List, [], ◌∷◌, Option, none, some,
  if◌then◌else◌, map, All, Bool-cases, Option-cases, Text, same, same_iff, map_or,
}
use llm_rate_limit_proxy.Base.Assoc.{get, insert, get-insert}
use llm_rate_limit_proxy.Governor.{
  Governor, entry, note_rebuff, limit, pressured, admit_with, drop_permit,
}
use llm_rate_limit_proxy.Governor.State.{
  ModelState, default_state, note_rebuff_state, limit_state, pressured_state, try_enter, leave,
}

-- One call that holds the mutex. `admit` is `asked`, then `entered` with the cap that it returned.
pub data Call : Type 0 where
  rebuffed : Text → ℕ → ℕ → Call
  asked : Text → ℕ → Call
  surveyed : ℕ → Call
  entered : ℕ → Text → Call
  dropped : Text → Call

unfoldable pub apply : Call → Governor → Governor
apply (rebuffed model lane now) g = note_rebuff model lane now g
apply (asked model now) g = (limit model now g).0
apply (surveyed now) g = (pressured now g).0
apply (entered cap model) g = (admit_with cap model g).0
apply (dropped model) g = drop_permit model g

unfoldable pub run : List Call → Governor → Governor
unfolding apply
run [] g = g
run (c ∷ cs) g = run cs (apply c g)

-- The rebuffs of `model` are all `ok` in their lane and time.
unfoldable pub Blames : (ok : ℕ → ℕ → Type 0) → Text → Call → Type 0
Blames ok model (rebuffed m lane now) = m ≡ model → ok lane now
Blames ok model (asked m now) = Unit
Blames ok model (surveyed now) = Unit
Blames ok model (entered cap m) = Unit
Blames ok model (dropped m) = Unit

-- What each method keeps of a model's state, when the rebuffs are `ok`.
pub record IsKept (ok : ℕ → ℕ → Type 0) (P : ModelState → Type 0) : Type 0 where
  pub default : P default_state
  pub rebuff :
      (lane now : ℕ) (s : ModelState) → ok lane now → P s → P (note_rebuff_state lane now s)
  pub asking : (now : ℕ) (s : ModelState) → P s → P (limit_state now s).0
  pub survey : (now : ℕ) (s : ModelState) → P s → P (pressured_state now s)
  pub enter : (cap : ℕ) (s : ModelState) → P s → P (try_enter cap s).0
  pub leaves : (s : ModelState) → P s → P (leave s)

pub get-map :
    (f : ModelState → ModelState) (k : Text) (g : Governor)
    → get k (map (λ (e : Text × ModelState). (e.0, f e.1)) g)
      ≡ elim (get k g) [ none ↦ none | some s ↦ some (f s) ]
unfolding get
get-map f k [] = refl
get-map f k ((j, s) ∷ g) = elim (Bool-cases (same j k)) [
  | inl e ↦ rw (e) refl
  | inr e ↦ rw (e) (get-map f k g)
]

pub entry-insert :
    (model k : Text) (s : ModelState) (g : Governor)
    → entry model (insert k s g) ≡ (if same k model then s else entry model g)
entry-insert model k s g = elim (Bool-cases (same k model)) [
  | inl e ↦ rw (get-insert k model s g, e) refl
  | inr e ↦ rw (get-insert k model s g, e) refl
]

module _ (ok : ℕ → ℕ → Type 0) (P : ModelState → Type 0) (kept : IsKept ok P) (model : Text) where
  P-insert :
      (k : Text) (s : ModelState) (g : Governor)
      → (k ≡ model → P s)
      → P (entry model g)
      → P (entry model (insert k s g))
  P-insert k s g h hg = subst P (sym (entry-insert model k s g)) (go (Bool-cases (same k model)))
    where
      go :
          ((same k model ≡ true) ⊎ (same k model ≡ false))
          → P (if same k model then s else entry model g)
      go (inl e) = rw (e) (h ((same_iff k model).0 e))
      go (inr e) = rw (e) hg

  P-found :
      (m : Text) (s : ModelState) (g : Governor)
      → get m g ≡ some s
      → P (entry model g)
      → m ≡ model
      → P s
  P-found m s g e hg q =
      subst (λ (o : Option ModelState). P (map_or o default_state (λ t. t))) e
        (subst (λ (k : Text). P (entry k g)) (sym q) hg)

  P-asked :
      (m : Text) (now : ℕ) (g : Governor) (hg : P (entry model g)) (o : Option ModelState)
      → get m g ≡ o
      → P (
          entry model
            (elim o as (λ _. Governor × ℕ) [
              | none ↦ (g, 0)
              | some s ↦ (insert m (limit_state now s).0 g, (limit_state now s).1)
            ]).0)
  P-asked m now g hg none e = hg
  P-asked m now g hg (some s) e =
      P-insert m (limit_state now s).0 g (λ q. kept.asking now s (P-found m s g e hg q)) hg

  P-dropped :
      (m : Text) (g : Governor) (hg : P (entry model g)) (o : Option ModelState)
      → get m g ≡ o
      → P (entry model (elim o as (λ _. Governor) [ none ↦ g | some s ↦ insert m (leave s) g ]))
  P-dropped m g hg none e = hg
  P-dropped m g hg (some s) e =
      P-insert m (leave s) g (λ q. kept.leaves s (P-found m s g e hg q)) hg

  P-apply :
      (c : Call) (g : Governor)
      → Blames ok model c
      → P (entry model g)
      → P (entry model (apply c g))
  unfolding apply Blames note_rebuff limit pressured admit_with drop_permit
  P-apply (rebuffed m lane now) g h hg =
      P-insert m (note_rebuff_state lane now (entry m g)) g
        (λ e. kept.rebuff lane now (entry m g) (h e) (subst (λ k. P (entry k g)) (sym e) hg)) hg
  P-apply (asked m now) g h hg = P-asked m now g hg (get m g) refl
  P-apply (surveyed now) g h hg = elim (Option-cases (get model g)) [
    | inl e ↦ rw (get-map (pressured_state now) model g, e) kept.default
    | inr (s, e) ↦
        rw (get-map (pressured_state now) model g, e)
          (kept.survey now s (P-found model s g e hg refl))
  ]
  P-apply (entered cap m) g h hg =
      P-insert m (try_enter cap (entry m g)).0 g
        (λ e. kept.enter cap (entry m g) (subst (λ k. P (entry k g)) (sym e) hg)) hg
  P-apply (dropped m) g h hg = P-dropped m g hg (get m g) refl

  -- What the methods keep, every history keeps.
  pub entry-run :
      (cs : List Call) (g : Governor)
      → All (Blames ok model) cs
      → P (entry model g)
      → P (entry model (run cs g))
  unfolding run
  entry-run [] g h hg = hg
  entry-run (c ∷ cs) g h hg = entry-run cs (apply c g) h.1 (P-apply c g h.0 hg)
