-- ===== src/Governor/Evidence.antt =====
-- `implicated_keys` of src/governor.rs: what the sorted and deduplicated lanes count, and what a
-- rebuff needs in order to move a cap.
use llm_rate_limit_proxy.Base.{
  ℕ, ◌≤◌, ◌<◌, ◌≡◌, ◌≢◌, ◌↔◌, ◌⊎◌, inl, inr, refl, sym, ◌∙◌, arith, false, List, [], ◌∷◌, some, leb,
  ◌==◌, map, length, All, In, here, there, In-All, All-In, Bool-cases,
}
use llm_rate_limit_proxy.Governor.State.{
  ModelState, insert_sorted, sort, dedup_from, dedup, implicated_keys, note_rebuff_state, cut,
  observe, keys_to_indict, just_adjusted,
}

All-insert_sorted :
    (P : ℕ → Type 0) (x : ℕ) (ys : List ℕ) → All P (insert_sorted x ys) ↔ (P x × All P ys)
unfolding insert_sorted
All-insert_sorted P x [] = ((λ h. h), (λ h. h))
All-insert_sorted P x (y ∷ ys) = elim (Bool-cases (leb x y)) [
  | inl e ↦ rw (e) ((λ h. h), (λ h. h))
  | inr e ↦
      let (f, k) = All-insert_sorted P x ys in
      rw (e) ((λ h. ((f h.1).0, (h.0, (f h.1).1))), (λ h. (h.1.0, k (h.0, h.1.1))))
]

All-sort : (P : ℕ → Type 0) (xs : List ℕ) → All P (sort xs) ↔ All P xs
unfolding sort
All-sort P [] = ((λ h. h), (λ h. h))
All-sort P (x ∷ xs) =
    let (f, k) = All-insert_sorted P x (sort xs) in
    let (f', k') = All-sort P xs in ((λ h. ((f h).0, f' (f h).1)), (λ h. k (h.0, k' h.1)))

dedup_from-lone : (x : ℕ) (ys : List ℕ) → (length (dedup_from x ys) ≡ 0) ↔ All (λ y. y ≡ x) ys
unfolding dedup_from
dedup_from-lone x [] = ((λ h. tt), (λ h. refl))
dedup_from-lone x (y ∷ ys) = elim (Bool-cases (x == y)) [
  | inl e ↦ let (f, k) = dedup_from-lone x ys in rw (e) ((λ h. (ground arith, f h)), (λ h. k h.1))
  | inr e ↦ rw (e) ((λ h. absurd (omega arith)), (λ h. absurd (let q = h.0 in ground arith)))
]

dedup-lone : (ys : List ℕ) → (length (dedup ys) ≤ 1) ↔ ((a b : ℕ) → In a ys → In b ys → a ≡ b)
unfolding dedup
dedup-lone [] = ((λ h a b i j. elim i [ ]), (λ h. omega arith))
dedup-lone (x ∷ ys) =
    let (f, k) = dedup_from-lone x ys in
    (
      (λ h a b i j.
          let every : All (λ y. y ≡ x) (x ∷ ys) = (refl, f (omega arith)) in
          In-All (λ y. y ≡ x) every i ∙ sym (In-All (λ y. y ≡ x) every j)),
      (λ h. let e = k (All-In ys (λ a i. h a x (there i) here)) in omega (arith, e)),
    )

In-map : (rs : List (ℕ × ℕ)) {r : ℕ × ℕ} → In r rs → In r.1 (map (λ (q : ℕ × ℕ). q.1) rs)
In-map [] i = elim i [ ]
In-map (r ∷ rs) here = here
In-map (r ∷ rs) (there i) = there (In-map rs i)

In-map_back :
    (rs : List (ℕ × ℕ)) {l : ℕ}
    → In l (map (λ (q : ℕ × ℕ). q.1) rs)
    → (r : ℕ × ℕ) × In r rs × (r.1 ≡ l)
In-map_back [] i = elim i [ ]
In-map_back (r ∷ rs) here = (r, here, refl)
In-map_back (r ∷ rs) (there i) = let (q, j, e) = In-map_back rs i in (q, there j, e)

In-sort : (ls : List ℕ) {l : ℕ} → In l ls → In l (sort ls)
In-sort ls i =
    let P : ℕ → Type 0 = λ y. In y (sort ls) in
    In-All P ((All-sort P ls).0 (All-In (sort ls) (λ a j. j))) i

In-sort_back : (ls : List ℕ) {l : ℕ} → In l (sort ls) → In l ls
In-sort_back ls i =
    let P : ℕ → Type 0 = λ y. In y ls in In-All P ((All-sort P ls).1 (All-In ls (λ a j. j))) i

-- Rebuffs implicate at most one key exactly when any two of them name the same lane.
pub implicated_keys-lone :
    (rs : List (ℕ × ℕ)) → (implicated_keys rs ≤ 1) ↔ ((a b : ℕ × ℕ) → In a rs → In b rs → a.1 ≡ b.1)
unfolding implicated_keys
implicated_keys-lone rs =
    let ls : List ℕ = map (λ (q : ℕ × ℕ). q.1) rs in
    let (f, k) = dedup-lone (sort ls) in
    (
      (λ h a b i j. f h a.1 b.1 (In-sort ls (In-map rs i)) (In-sort ls (In-map rs j))),
      (λ h. k (λ a b i j.
          let (p, i', e) = In-map_back rs (In-sort_back ls i) in
          let (q, j', e') = In-map_back rs (In-sort_back ls j) in sym e ∙ h p q i' j' ∙ e')),
    )

-- A rebuff moves a cap only when two keys are implicated inside the window, the cap has not moved
-- within the cooldown, and the gate was in the way; then the cap is between the floor and what it
-- was, if there was one, and the time of the move is kept.
pub note_rebuff_state-moves :
    (lane now : ℕ) (s : ModelState)
    → (note_rebuff_state lane now s).limit ≢ s.limit
    → (keys_to_indict ≤ implicated_keys (observe lane now s).rebuffs)
      × (just_adjusted now s ≡ false)
      × ((s.limit ≡ 0)
          ⊎ ((s.limit ≤ s.inflight) × ((note_rebuff_state lane now s).limit < s.limit)))
      × ((note_rebuff_state lane now s).last_adjusted ≡ some now)
unfolding note_rebuff_state cut observe
note_rebuff_state-moves lane now s h = ground arith
