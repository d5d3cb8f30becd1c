-- ===== src/Governor/Permits.antt =====
-- Admission of src/governor.rs: what a permit means under a cap, and that the count of permits in
-- flight is exact; and what the two ways to release a quiet model leave behind.
use llm_rate_limit_proxy.Base.{
  ℕ, suc, ◌+◌, ◌-◌, ◌≤◌, ◌<◌, ◌≡◌, ◌⊎◌, inl, inr, refl, sym, ap, subst, ◌∙◌, arith, true, false, [],
  some, if◌then◌else◌, ◌&&◌, Bool-cases, Option-cases, Text, same, same_iff, same_refl, retain,
}
use llm_rate_limit_proxy.Base.Assoc.{get}
use llm_rate_limit_proxy.Governor.{Governor, entry, limit, admit, admit_with, inflight}
use llm_rate_limit_proxy.Governor.State.{
  insert_sorted, sort, dedup, dedup_from, cut, observe, dissolve, implicated_keys, ModelState,
  note_rebuff_state, limit_state, pressured_state, try_enter, leave, grow, dissolve, cut, observe,
  implicated_keys, sort, insert_sorted,
}
use llm_rate_limit_proxy.Governor.Steps.{step, entry-apply}
use llm_rate_limit_proxy.Governor.Calls.{
  Call, rebuffed, asked, surveyed, entered, dropped, apply, entry-insert,
}

inflight-entry : (model : Text) (g : Governor) → inflight model g ≡ (entry model g).inflight
unfolding inflight
inflight-entry model g = elim (Option-cases (get model g)) [
  | inl e ↦ rw (e) refl
  | inr (s, e) ↦ rw (e) refl
]

try_enter-cases :
    (cap : ℕ) (s : ModelState)
    → ((try_enter cap s).1 ≡ true
        → ((try_enter cap s).0.inflight ≡ suc s.inflight)
          × ((cap ≡ 0) ⊎ ((try_enter cap s).0.inflight ≤ cap)))
      × ((try_enter cap s).1 ≡ false
          → ((try_enter cap s).0.inflight ≡ s.inflight) × (1 ≤ cap) × (cap ≤ s.inflight))
unfolding try_enter
try_enter-cases cap s = ground arith

limit_state-inflight : (now : ℕ) (s : ModelState) → (limit_state now s).0.inflight ≡ s.inflight
unfolding limit_state grow dissolve
limit_state-inflight now s = ground arith

inflight-limit :
    (model : Text) (now : ℕ) (g : Governor)
    → (entry model (limit model now g).0).inflight ≡ (entry model g).inflight
unfolding apply step
inflight-limit model now g =
    ap (λ (s : ModelState). s.inflight) (entry-apply model (asked model now) g)
    ∙ ap (λ b. (if b then (limit_state now (entry model g)).0 else entry model g).inflight)
        (same_refl model)
    ∙ limit_state-inflight now (entry model g)

-- Admission under the cap that `limit` answers: either there is a permit, one more is in flight, and if
-- there is a cap no more than it; or there is none, nothing more is in flight, and the cap is reached.
pub admit-bounded :
    (model : Text) (now : ℕ) (g : Governor)
    → (((admit model now g).1 ≡ true)
        × (inflight model (admit model now g).0 ≡ suc (inflight model g))
        × (((limit model now g).1 ≡ 0)
            ⊎ (inflight model (admit model now g).0 ≤ (limit model now g).1)))
      ⊎ (((admit model now g).1 ≡ false)
          × (inflight model (admit model now g).0 ≡ inflight model g)
          × (1 ≤ (limit model now g).1)
          × ((limit model now g).1 ≤ inflight model g))
unfolding admit admit_with
admit-bounded model now g =
    let cap = (limit model now g).1 in
    let g' = (limit model now g).0 in
    let before = inflight-entry model g in
    let after = inflight-entry model (admit_with cap model g').0 in
    let asked_e = inflight-limit model now g in
    let entered_e =
      ap (λ (s : ModelState). s.inflight)
        (entry-insert model model (try_enter cap (entry model g')).0 g'
          ∙ ap (λ b. if b then (try_enter cap (entry model g')).0 else entry model g')
              (same_refl model)) in
    let cases = try_enter-cases cap (entry model g') in
    let final : inflight model (admit_with cap model g').0
        ≡ (try_enter cap (entry model g')).0.inflight =
      after ∙ entered_e in
    let start = asked_e ∙ sym before in
    elim (Bool-cases (try_enter cap (entry model g')).1) [
      | inl h ↦
          let (a, b) = cases.0 h in
          inl (
            h,
            final ∙ a ∙ ap suc start,
            elim b [ inl z ↦ inl z | inr l ↦ inr (subst (λ n. n ≤ cap) (sym final) l) ],
          )
      | inr h ↦
          let (a, b, c) = cases.1 h in inr (h, final ∙ a ∙ start, b, subst (λ n. cap ≤ n) start c)
    ]

-- The permits of `model` that are held after a call: a `ModelPermit` is made by a granted admission and
-- is gone once dropped.
unfoldable pub held_after : Text → Call → Governor → ℕ → ℕ
held_after model (rebuffed m lane now) g n = n
held_after model (asked m now) g n = n
held_after model (surveyed now) g n = n
held_after model (entered cap m) g n = if same m model && (admit_with cap m g).1 then suc n else n
held_after model (dropped m) g n = if same m model then n - 1 else n

-- A permit is there to be dropped.
unfoldable pub IsHeld : Text → Call → ℕ → Type 0
IsHeld model (dropped m) n = m ≡ model → 1 ≤ n
IsHeld model (rebuffed m lane now) n = Unit
IsHeld model (asked m now) n = Unit
IsHeld model (surveyed now) n = Unit
IsHeld model (entered cap m) n = Unit

-- The histories from the empty map in which a permit is dropped only when one is held, with the
-- number of those that are held.
pub data History (model : Text) : Governor → ℕ → Type 0 where
  start : History model [] 0
  call :
      {g : Governor} {n : ℕ} (c : Call)
      → History model g n
      → IsHeld model c n
      → History model (apply c g) (held_after model c g n)

note_rebuff_state-inflight :
    (lane now : ℕ) (s : ModelState) → (note_rebuff_state lane now s).inflight ≡ s.inflight
unfolding note_rebuff_state cut observe
note_rebuff_state-inflight lane now s = ground arith

pressured_state-inflight :
    (now : ℕ) (s : ModelState) → (pressured_state now s).inflight ≡ s.inflight
unfolding pressured_state
pressured_state-inflight now s = ground arith

try_enter-inflight :
    (cap : ℕ) (s : ModelState)
    → (try_enter cap s).0.inflight ≡ (if (try_enter cap s).1 then suc s.inflight else s.inflight)
unfolding try_enter
try_enter-inflight cap s = ground arith

held-step :
    (model : Text) (c : Call) (g : Governor)
    → (step model c (entry model g)).inflight ≡ held_after model c g (entry model g).inflight
unfolding step held_after leave admit_with
held-step model (rebuffed m lane now) g = elim (Bool-cases (same m model)) [
  | inl e ↦ rw (e) (note_rebuff_state-inflight lane now (entry model g))
  | inr e ↦ rw (e) refl
]
held-step model (asked m now) g = elim (Bool-cases (same m model)) [
  | inl e ↦ rw (e) (limit_state-inflight now (entry model g))
  | inr e ↦ rw (e) refl
]
held-step model (surveyed now) g = pressured_state-inflight now (entry model g)
held-step model (entered cap m) g = elim (Bool-cases (same m model)) [
  | inl e ↦ rw (e) (
      subst
        (λ (k : Text). (try_enter cap (entry model g)).0.inflight ≡ (
          if (try_enter cap (entry k g)).1
          then suc (entry model g).inflight
          else (entry model g).inflight))
        (sym ((same_iff m model).0 e)) (try_enter-inflight cap (entry model g)))
  | inr e ↦ rw (e) refl
]
held-step model (dropped m) g = elim (Bool-cases (same m model)) [
  | inl e ↦ rw (e) refl
  | inr e ↦ rw (e) refl
]

-- A call's effect on the count of a model in flight.
pub inflight-apply :
    (model : Text) (c : Call) (g : Governor)
    → inflight model (apply c g) ≡ held_after model c g (inflight model g)
inflight-apply model c g =
    inflight-entry model (apply c g)
    ∙ ap (λ (s : ModelState). s.inflight) (entry-apply model c g)
    ∙ held-step model c g
    ∙ ap (held_after model c g) (sym (inflight-entry model g))

-- In every history the count of a model in flight is the number of permits that are held.
pub inflight-held : (model : Text) (g : Governor) (n : ℕ) → History model g n → inflight model g ≡ n
unfolding get
inflight-held model g n h = inflight-entry model g ∙ go g n h
  where
    go : (g : Governor) (n : ℕ) → History model g n → (entry model g).inflight ≡ n
    go _ _ start = refl
    go _ _ (call {g} {n} c h k) =
        ap (λ (s : ModelState). s.inflight) (entry-apply model c g)
        ∙ held-step model c g
        ∙ ap (held_after model c g) (go g n h)

-- A model that has been quiet for ten minutes is released both by `limit` and by `pressured`; but if its
-- cap last moved less than the cooldown ago, two keys that are rebuffed next bring it under a cap
-- after `limit` and do not after `pressured`.
pub release-differs :
    (s : ModelState) (now next at last l k : ℕ)
    → s.last_rebuff ≡ some last
    → 600000 + last ≤ now
    → s.last_adjusted ≡ some at
    → now ≤ next
    → next < at + 5000
    → l < k
    → ((note_rebuff_state k next (note_rebuff_state l next (pressured_state now s))).limit ≡ 0)
      × (2 ≤ (note_rebuff_state k next (note_rebuff_state l next (limit_state now s).0)).limit)
unfolding pressured_state limit_state dissolve note_rebuff_state observe cut implicated_keys retain
    sort insert_sorted dedup dedup_from
release-differs s now next at last l k hr quiet ha le soon lk = (ground arith, ground arith)
