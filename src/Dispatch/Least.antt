-- ===== src/Dispatch/Least.antt =====
-- The lightest entry of `with_room`: `with_room.iter().min()`.
use llm_rate_limit_proxy.Base.{
  ℕ, ◌≤◌, ◌<◌, ◌≡◌, refl, inl, inr, ◌⊎◌, true, false, List, [], ◌∷◌, map, some, if◌then◌else◌, In,
  here, there, arith, Bool-cases, subst,
}
use llm_rate_limit_proxy.Dispatch.{lighter, least_from, least}

pub In-map_snd : (j : ℕ) (rs : List (ℕ × ℕ)) → In j (map (λ r. r.1) rs) → (n : ℕ) × In (n, j) rs
In-map_snd j [] m = elim m [ ]
In-map_snd j ((n, i) ∷ rs) here = (n, here)
In-map_snd j (r ∷ rs) (there m) = let (n, k) = In-map_snd j rs m in (n, there k)

least_from-In : (best : ℕ × ℕ) (rs : List (ℕ × ℕ)) → In (least_from best rs) (best ∷ rs)
unfolding least_from
least_from-In best [] = here
least_from-In best (r ∷ rs) = elim (Bool-cases (lighter r best)) [
  | inl e ↦ rw (e, least_from) (there (least_from-In r rs))
  | inr e ↦ rw (e, least_from) (skip_one (least_from-In best rs))
]
  where
    skip_one : {x : ℕ × ℕ} → In x (best ∷ rs) → In x (best ∷ r ∷ rs)
    skip_one here = here
    skip_one (there k) = there (there k)

-- Of two pairs the first one wins: a smaller load, or the same load and no larger index.
abbrev pub NoHeavier : ℕ × ℕ → ℕ × ℕ → Type 0
NoHeavier a b = (a.0 < b.0) ⊎ ((a.0 ≡ b.0) × (a.1 ≤ b.1))

NoHeavier-trans : (a b c : ℕ × ℕ) → NoHeavier a b → NoHeavier b c → NoHeavier a c
NoHeavier-trans a b c h k = grind arith

lighter-NoHeavier : (a b : ℕ × ℕ) → lighter a b ≡ true → NoHeavier a b
unfolding lighter
lighter-NoHeavier a b h = grind arith

not-lighter-NoHeavier : (a b : ℕ × ℕ) → lighter a b ≡ false → NoHeavier b a
unfolding lighter
not-lighter-NoHeavier a b h = grind arith

least_from-le : (best : ℕ × ℕ) (rs : List (ℕ × ℕ)) → NoHeavier (least_from best rs) best
unfolding least_from
least_from-le best [] = inr (refl, omega arith)
least_from-le best (r ∷ rs) = elim (Bool-cases (lighter r best)) [
  | inl e ↦
      rw (e, least_from)
        (NoHeavier-trans _ r best (least_from-le r rs) (lighter-NoHeavier r best e))
  | inr e ↦ rw (e, least_from) (least_from-le best rs)
]

least_from-min :
    (r : ℕ × ℕ) (best : ℕ × ℕ) (rs : List (ℕ × ℕ)) → In r rs → NoHeavier (least_from best rs) r
unfolding least_from
least_from-min r best [] m = elim m [ ]
least_from-min r best (_ ∷ rs) here = elim (Bool-cases (lighter r best)) [
  | inl e ↦ rw (e, least_from) (least_from-le r rs)
  | inr e ↦
      rw (e, least_from)
        (NoHeavier-trans _ best r (least_from-le best rs) (not-lighter-NoHeavier r best e))
]
least_from-min r best (x ∷ rs) (there m) =
    least_from-min r (if lighter x best then x else best) rs m

-- The least-loaded lane with room: its entry, which no other entry beats.
pub least-min :
    (rs : List (ℕ × ℕ)) {i : ℕ}
    → least rs ≡ some i
    → (n : ℕ) × In (n, i) rs × ((r : ℕ × ℕ) → In r rs → NoHeavier (n, i) r)
unfolding least
least-min [] h = absurd (ground arith)
least-min (x ∷ rs) {i} h =
    let best = least_from x rs in
    let e : best.1 ≡ i = ground arith in
    (
      best.0,
      subst (λ j. In (best.0, j) (x ∷ rs)) e (least_from-In x rs),
      λ r m. subst (λ j. NoHeavier (best.0, j) r) e (beats r m),
    )
  where
    beats : (r : ℕ × ℕ) → In r (x ∷ rs) → NoHeavier (least_from x rs) r
    beats r here = least_from-le x rs
    beats r (there m) = least_from-min r x rs m
