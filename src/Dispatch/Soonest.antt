-- ===== src/Dispatch/Soonest.antt =====
-- The earliest time at which a scan has found that something may free.
use llm_rate_limit_proxy.Base.{
  ℕ, zero, suc, ◌+◌, ◌≤◌, ◌≡◌, refl, ap, inl, inr, ◌⊎◌, List, [], ◌∷◌, Option, none, some,
  get_elem?, arith, min, subst,
}
use native.Mathlib.Decide.{dec_lt}
use llm_rate_limit_proxy.Pool.Lane.{Lane}
use llm_rate_limit_proxy.Dispatch.{
  Query, Visit, skipped, slipped, cooling, full, roomy, visit, Summary, earlier, note, scan,
}
use llm_rate_limit_proxy.Dispatch.Scan.{At, at_later, due}

earlier_le : (o : Option ℕ) (t : ℕ) → (s : ℕ) × (earlier o t ≡ some s) × (s ≤ t)
unfolding earlier
earlier_le none t = (t, refl, omega arith)
earlier_le (some s) t = (min s t, refl, omega arith)

earlier_keeps :
    (o : Option ℕ) (t : ℕ) {s₀ : ℕ} → o ≡ some s₀ → (s : ℕ) × (earlier o t ≡ some s) × (s ≤ s₀)
unfolding earlier
earlier_keeps none t h = absurd (ground arith)
earlier_keeps (some s) t {s₀} h = (min s t, refl, let e : s ≡ s₀ = ground arith in omega arith)

earlier_at : (o : Option ℕ) (t : ℕ) {s : ℕ} → earlier o t ≡ some s → (t ≡ s) ⊎ (o ≡ some s)
unfolding earlier
earlier_at none t h = inl (ground arith)
earlier_at (some r) t {s} h =
    let e : min r t ≡ s = ground arith in
    elim (dec_lt r t) [ yes lt ↦ inr (ap some (omega arith)) | no ge ↦ inl (omega arith) ]

note-soonest_le :
    (idx : ℕ) (v : Visit) (s : Summary) {t : ℕ}
    → due v ≡ some t
    → (m : ℕ) × ((note idx v s).soonest ≡ some m) × (m ≤ t)
unfolding note
note-soonest_le idx skipped s d = absurd (ground arith)
note-soonest_le idx slipped s d = absurd (ground arith)
note-soonest_le idx (cooling t) s {t = u} d =
    let e : t ≡ u = ground arith in rw (← e) (earlier_le s.soonest t)
note-soonest_le idx (full t) s {t = u} d =
    let e : t ≡ u = ground arith in rw (← e) (earlier_le s.soonest t)
note-soonest_le idx (roomy n) s d = absurd (ground arith)

note-soonest_keeps :
    (idx : ℕ) (v : Visit) (s : Summary) {t : ℕ}
    → s.soonest ≡ some t
    → (m : ℕ) × ((note idx v s).soonest ≡ some m) × (m ≤ t)
unfolding note
note-soonest_keeps idx skipped s {t} d = (t, d, omega arith)
note-soonest_keeps idx slipped s {t} d = (t, d, omega arith)
note-soonest_keeps idx (cooling t) s d = earlier_keeps s.soonest t d
note-soonest_keeps idx (full t) s d = earlier_keeps s.soonest t d
note-soonest_keeps idx (roomy n) s {t} d = (t, d, omega arith)

note-soonest_at :
    (idx : ℕ) (v : Visit) (s : Summary) {t : ℕ}
    → (note idx v s).soonest ≡ some t
    → (due v ≡ some t) ⊎ (s.soonest ≡ some t)
unfolding note
note-soonest_at idx skipped s d = inr d
note-soonest_at idx slipped s d = inr d
note-soonest_at idx (cooling t) s d = elim (earlier_at s.soonest t d) [
  | inl e ↦ inl (ap some e)
  | inr e ↦ inr e
]
note-soonest_at idx (full t) s d = elim (earlier_at s.soonest t d) [
  | inl e ↦ inl (ap some e)
  | inr e ↦ inr e
]
note-soonest_at idx (roomy n) s d = inr d

-- No time that a visit names is missed.
pub scan-soonest_le :
    (q : Query) (now i : ℕ) (ls : List Lane) (k : ℕ) {l : Lane} {t : ℕ}
    → get_elem? ls k ≡ some l
    → due (visit q now (i + k) l).1 ≡ some t
    → (s : ℕ) × ((scan q now i ls).1.soonest ≡ some s) × (s ≤ t)
unfolding scan
scan-soonest_le q now i [] k e d = absurd (ground arith)
scan-soonest_le q now i (x ∷ ls) zero {l} {t} e d =
    note-soonest_le i _ _
      (let e' : x ≡ l = ground arith in let e'' : i ≡ i + 0 = omega arith in rw (e', e'') d)
scan-soonest_le q now i (x ∷ ls) (suc k) {l} {t} e d =
    let (r, at, below) =
      scan-soonest_le q now (suc i) ls k e
        (subst (λ n. due (visit q now n l).1 ≡ some t) (omega arith) d) in
    let (m, at', below') = note-soonest_keeps i (visit q now i x).1 _ at in (m, at', omega arith)

-- The time to wait for is one that some visit names.
pub scan-soonest_at :
    (q : Query) (now i : ℕ) (ls : List Lane) {s : ℕ}
    → (scan q now i ls).1.soonest ≡ some s
    → (j : ℕ) × (a : At q now i ls j) × (due (visit q now j a.lane).1 ≡ some s)
unfolding scan
scan-soonest_at q now i [] h = absurd (ground arith)
scan-soonest_at q now i (x ∷ ls) {s} h = elim (note-soonest_at i (visit q now i x).1 _ h) [
  | inl d ↦ (i, record { k = 0; lane = x; place = omega arith; found = refl }, d)
  | inr r ↦ let (j, a, d) = scan-soonest_at q now (suc i) ls r in (j, at_later a, d)
]

-- The same of a scan that counts from 0.
module _ (q : Query) (now : ℕ) (ls : List Lane) where
  pub scan-soonest_le_zero :
      (k : ℕ) {l : Lane} {t : ℕ}
      → get_elem? ls k ≡ some l
      → due (visit q now k l).1 ≡ some t
      → (s : ℕ) × ((scan q now 0 ls).1.soonest ≡ some s) × (s ≤ t)
  scan-soonest_le_zero k {l} {t} e d =
      scan-soonest_le q now 0 ls k e
        (subst (λ m. due (visit q now m l).1 ≡ some t) {x = k} {y = 0 + k} (omega arith) d)
