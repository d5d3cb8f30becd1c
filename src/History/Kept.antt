-- ===== src/History/Kept.antt =====
-- What the series keeps and what a range of it shows.
use llm_rate_limit_proxy.Base.{
  ℕ, zero, suc, ◌+◌, ◌-◌, ◌/◌, ◌≤◌, ◌≡◌, ◌⊎◌, inl, inr, refl, subst, arith, Bool, true, false, List,
  [], ◌∷◌, leb, ◌==◌, if◌then◌else◌, ◌||◌, max, length, retain, In, here, there, In-append_cases,
  on_if, Bool-cases,
}
use llm_rate_limit_proxy.History.{
  Snapshot, History, recent, append, step_from, downsample, between, range,
}

kept :
    (p : Snapshot → Bool) {ss ts : List Snapshot} {s : Snapshot} (x : Snapshot)
    → p x ≡ true
    → In s (x ∷ ts)
    → (In s ts → In s ss × (p s ≡ true))
    → In s (x ∷ ss) × (p s ≡ true)
kept p _ e here again = (here, e)
kept p x e (there i) again = let (k, h) = again i in (there k, h)

In-retain_back :
    (p : Snapshot → Bool) (ss : List Snapshot) {s : Snapshot}
    → In s (retain p ss)
    → In s ss × (p s ≡ true)
unfolding retain
In-retain_back p [] i = elim i [ ]
In-retain_back p (x ∷ ss) {s} i = go (Bool-cases (p x)) i (λ j. In-retain_back p ss j)
  where
    go :
        ((p x ≡ true) ⊎ (p x ≡ false))
        → In s (if p x then x ∷ retain p ss else retain p ss)
        → (In s (retain p ss) → In s ss × (p s ≡ true))
        → In s (x ∷ ss) × (p s ≡ true)
    go (inl e) j again =
        kept p x e (subst (λ b. In s (if b then x ∷ retain p ss else retain p ss)) e j) again
    go (inr e) j again =
        let (k, h) = again (subst (λ b. In s (if b then x ∷ retain p ss else retain p ss)) e j) in
        (there k, h)

-- A sampled series has only items of the series.
In-step_from :
    (skip step : ℕ) (ss : List Snapshot) {s : Snapshot} → In s (step_from skip step ss) → In s ss
unfolding step_from
In-step_from skip step [] i = i
In-step_from zero step (s ∷ ss) here = here
In-step_from zero step (s ∷ ss) (there i) = there (In-step_from (step - 1) step ss i)
In-step_from (suc skip) step (s ∷ ss) i = there (In-step_from skip step ss i)

In-downsample : (v : List Snapshot) (limit : ℕ) {s : Snapshot} → In s (downsample v limit) → In s v
unfolding downsample
In-downsample v limit {s} =
    on_if (λ (xs : List Snapshot). In s xs → In s v) ((limit == 0) || leb (length v) limit) _ _
      (λ _ i. i) (λ _ i. In-step_from 0 (max (length v / limit) 1) v i)

-- What a range shows is a snapshot of the series, with a time in the range.
pub range-within :
    (from to limit : ℕ) (h : History) (s : Snapshot)
    → In s (range from to limit h)
    → In s h.snapshots × (from ≤ s.t) × (s.t ≤ to)
unfolding range between
range-within from to limit h s i =
    let (j, e) = In-retain_back (between from to) h.snapshots (In-downsample _ limit i) in
    (j, ground arith, ground arith)

In-one : {s x : Snapshot} → In s (x ∷ []) → s ≡ x
In-one here = refl
In-one (there i) = elim i [ ]

-- After an append the new snapshot is in the series, the others are of the series before, and none is older
-- than the retention.
pub append-keeps :
    (writes : Bool) (t total : ℕ) (h : History) (s : Snapshot)
    → In s (append writes t total h).snapshots
    → ((s ≡ record { t = t; total = total }) ⊎ In s h.snapshots) × (t ≤ s.t + h.retention_secs)
unfolding append recent
append-keeps writes t total h s i =
    let (j, e) = In-retain_back (recent h.retention_secs t) _ i in
    (elim (In-append_cases h.snapshots j) [ inl k ↦ inr k | inr k ↦ inl (In-one k) ], ground arith)
