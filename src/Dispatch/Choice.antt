-- ===== src/Dispatch/Choice.antt =====
-- What a caller of `acquire_for` may rely on in one round.
use llm_rate_limit_proxy.Base.{
  ℕ, zero, suc, ◌≡◌, ◌≢◌, refl, sym, ap, ◌∙◌, inl, inr, ◌⊎◌, ◌↔◌, true, false, List, [], ◌∷◌, none,
  some, Text, get_elem?, set, In, arith, Bool-cases, All, In-All, In-get_elem?, subst,
}
use llm_rate_limit_proxy.Pool.Lane.{Lane}
use llm_rate_limit_proxy.Pool.Lanes.{Pool}
use llm_rate_limit_proxy.Dispatch.{
  Query, Visit, passed_over, visit, Outcome, granted, no_lane, permit_of, attempt, Permit, choose,
  hint, least,
}
use llm_rate_limit_proxy.Dispatch.Match.{IsMatch, passed_over-IsMatch}
use llm_rate_limit_proxy.Dispatch.Least.{NoHeavier, least-min}
use llm_rate_limit_proxy.Dispatch.Scan.{
  freed, spent, IsSound, Seen, skip, cool, busy, room, visit-Seen, At-found, scan-room,
  get_elem?-scan_zero, scan-room_of_zero, scan-eligible_zero, counts, scan-eligible_at,
}
use llm_rate_limit_proxy.Dispatch.Grant.{
  IsFree, taken, visit-IsFree, Seen-room, Round, grants, stays, attempt-Round, scanned,
}

get_elem?-set_self {ℓ} :
    {A : Type ℓ} (xs : List A) (i : ℕ) (v : A) {w : A}
    → get_elem? xs i ≡ some w
    → get_elem? (set xs i v) i ≡ some v
get_elem?-set_self [] i v h = absurd (ground arith)
get_elem?-set_self (x ∷ xs) zero v h = refl
get_elem?-set_self (x ∷ xs) (suc i) v h = get_elem?-set_self xs i v h

get_elem?-set_ne {ℓ} :
    {A : Type ℓ} (xs : List A) (i j : ℕ) (v : A) → i ≢ j → get_elem? (set xs i v) j ≡ get_elem? xs j
get_elem?-set_ne [] i j v h = refl
get_elem?-set_ne (x ∷ xs) zero zero v h = absurd (h refl)
get_elem?-set_ne (x ∷ xs) zero (suc j) v h = refl
get_elem?-set_ne (x ∷ xs) (suc i) zero v h = refl
get_elem?-set_ne (x ∷ xs) (suc i) (suc j) v h = get_elem?-set_ne xs i j v (λ e. h (ap suc e))

-- A visit leaves a sound lane as it was, or without its expired hits.
visit-lane :
    (q : Query) (now k : ℕ) (l : Lane)
    → IsSound l
    → ((visit q now k l).0 ≡ l) ⊎ ((visit q now k l).0 ≡ freed now l)
visit-lane q now k l sound = go (visit-Seen q now k l sound)
  where
    go : {v : Lane × Visit} → Seen q now k l v → (v.0 ≡ l) ⊎ (v.0 ≡ freed now l)
    go (skip p e) = inl (ap (λ v. v.0) e)
    go (cool t p c e) = inl (ap (λ v. v.0) e)
    go (busy p c b e) = inr (ap (λ v. v.0) e)
    go (room p c b e) = inr (ap (λ v. v.0) e)

visit-counts :
    (q : Query) (now k : ℕ) (l : Lane)
    → IsSound l
    → (counts (visit q now k l).1 ≡ true) ↔ (passed_over q k l ≡ false)
visit-counts q now k l sound = go (visit-Seen q now k l sound)
  where
    go : {v : Lane × Visit} → Seen q now k l v → (counts v.1 ≡ true) ↔ (passed_over q k l ≡ false)
    go (skip p e) = ground arith
    go (cool t p c e) = ground arith
    go (busy p c b e) = ground arith
    go (room p c b e) = ground arith

choose_alone :
    (hash : ℕ → Text → Text → ℕ) (q : Query) (p : Pool) (rs : List (ℕ × ℕ))
    → q.session ≡ none
    → choose hash q p rs ≡ least rs
unfolding choose hint
choose_alone hash q p rs e = rw e

-- A permit and the pool behind it: `lane` is the lane of the pool that the permit is for.
pub record Served (q : Query) (now : ℕ) (p p' : Pool) (permit : Permit) : Type 0 where
  pub lane : Lane
  pub found : get_elem? p.lanes permit.lane_idx ≡ some lane
  pub matches : IsMatch q permit.lane_idx lane
  pub free : IsFree q now permit.lane_idx lane
  pub copied : permit ≡ permit_of permit.lane_idx lane
  pub recorded : get_elem? p'.lanes permit.lane_idx ≡ some (taken now lane)
  pub others :
      (j : ℕ) (m : Lane)
      → permit.lane_idx ≢ j
      → get_elem? p.lanes j ≡ some m
      → (get_elem? p'.lanes j ≡ some m) ⊎ (get_elem? p'.lanes j ≡ some (freed now m))

module _ (hash : ℕ → Text → Text → ℕ) (q : Query) (now : ℕ) (p : Pool)
    (sound : All IsSound p.lanes) where
  lane-IsSound : (k : ℕ) {l : Lane} → get_elem? p.lanes k ≡ some l → IsSound l
  lane-IsSound k e = In-All IsSound sound (In-get_elem? p.lanes k e)

  scan_others :
      (j : ℕ) (m : Lane)
      → get_elem? p.lanes j ≡ some m
      → (get_elem? (scanned hash q now p).0 j ≡ some m)
        ⊎ (get_elem? (scanned hash q now p).0 j ≡ some (freed now m))
  scan_others j m at = elim (visit-lane q now j m (lane-IsSound j at)) [
    | inl e ↦ inl (get_elem?-scan_zero q now p.lanes j at ∙ ap some e)
    | inr e ↦ inr (get_elem?-scan_zero q now p.lanes j at ∙ ap some e)
  ]

  granted-Served :
      (idx : ℕ) (l : Lane)
      → get_elem? p.lanes idx ≡ some l
      → IsFree q now idx l
      → Served q now p
          (record p { lanes = set (scanned hash q now p).0 idx (taken now l) })
          (permit_of idx l)
  granted-Served idx l at f = record {
    lane = l;
    found = at;
    matches = passed_over-IsMatch q idx l f.matching;
    free = f;
    copied = refl;
    recorded =
        get_elem?-set_self (scanned hash q now p).0 idx (taken now l)
          (get_elem?-scan_zero q now p.lanes idx at);
    others = λ j m ne e.
        rw (get_elem?-set_ne (scanned hash q now p).0 idx j (taken now l) ne) (scan_others j m e);
  }

  Round-Served :
      {r : Pool × Outcome} {p' : Pool} {permit : Permit}
      → Round hash q now p r
      → r ≡ (p', granted permit)
      → Served q now p p' permit
  Round-Served {p'} {permit} (grants idx l at f c e) h =
      subst (λ s. Served q now p s permit) (ground arith)
        (subst
          (λ x.
            Served q now p (record p { lanes = set (scanned hash q now p).0 idx (taken now l) }) x)
          (ground arith) (granted-Served idx l at f))
  Round-Served (stays rest e) h = absurd (ground arith)

  -- A granted permit is for a lane of the pool that matches the query's provider and protocol, is
  -- not excluded, is not benched and has budget left; it carries that lane's data. That lane alone
  -- records a hit: every other lane stays as it was, or loses hits that have expired.
  pub attempt-granted :
      {p' : Pool} {permit : Permit}
      → attempt hash q now p ≡ (p', granted permit)
      → Served q now p p' permit
  attempt-granted h = Round-Served (attempt-Round hash q now p sound) h

  -- The round gives up exactly when every lane of the pool is passed over.
  pub attempt-no_lane :
      ((attempt hash q now p).1 ≡ no_lane)
      ↔ ((k : ℕ) (l : Lane) → get_elem? p.lanes k ≡ some l → passed_over q k l ≡ true)
  attempt-no_lane = (to, from)
    where
      round : Round hash q now p (attempt hash q now p)
      round = attempt-Round hash q now p sound

      nothing :
          {r : Pool × Outcome}
          → Round hash q now p r
          → r.1 ≡ no_lane
          → (scanned hash q now p).1.eligible ≡ false
      nothing (grants idx l at f c e) h = absurd (ground arith)
      nothing (stays rest e) h = ground arith

      gives_up :
          {r : Pool × Outcome}
          → Round hash q now p r
          → (scanned hash q now p).1.eligible ≡ false
          → r.1 ≡ no_lane
      gives_up (grants idx l at f c e) h = absurd (
          ground (
            arith,
            scan-eligible_zero q now p.lanes idx at
                ((visit-counts q now idx l (lane-IsSound idx at)).1 f.matching),
          ))
      gives_up (stays rest e) h = ground arith

      to :
          (attempt hash q now p).1 ≡ no_lane
          → (k : ℕ) (l : Lane) → get_elem? p.lanes k ≡ some l
          → passed_over q k l ≡ true
      to h k l at = elim (Bool-cases (passed_over q k l)) [
        | inl e ↦ e
        | inr e ↦ absurd (
            ground (
              arith,
              nothing round h,
              scan-eligible_zero q now p.lanes k at
                  ((visit-counts q now k l (lane-IsSound k at)).1 e),
            ))
      ]

      from :
          ((k : ℕ) (l : Lane) → get_elem? p.lanes k ≡ some l → passed_over q k l ≡ true)
          → (attempt hash q now p).1 ≡ no_lane
      from all = elim (Bool-cases (scanned hash q now p).1.eligible) [
        | inr e ↦ gives_up round e
        | inl e ↦
            let (j, a, c) = scan-eligible_at q now 0 p.lanes e in
            let at = At-found q now p.lanes a in
            let over = (visit-counts q now j a.lane (lane-IsSound j at)).0 c in
            absurd (ground (arith, all j a.lane at))
      ]

  -- A lane that could serve now is never left waiting: the round grants.
  pub attempt-free :
      (k : ℕ) {l : Lane}
      → get_elem? p.lanes k ≡ some l
      → IsFree q now k l
      → (permit : Permit) × ((attempt hash q now p).1 ≡ granted permit)
  attempt-free k {l} at f = go (attempt-Round hash q now p sound)
    where
      go : {r : Pool × Outcome} → Round hash q now p r → (permit : Permit) × (r.1 ≡ granted permit)
      go (grants idx l' at' f' c e) = (permit_of idx l', ap (λ r. r.1) e)
      go (stays r e) = absurd (no_entry (subst (In {A = ℕ × ℕ} (spent now l, k)) r entry))
        where
          entry : In {A = ℕ × ℕ} (spent now l, k) (scanned hash q now p).1.with_room
          entry =
              scan-room_of_zero q now p.lanes k at (visit-IsFree q now k l (lane-IsSound k at) f)

          no_entry : In {A = ℕ × ℕ} (spent now l, k) [] → ⊥
          no_entry m = elim m [ ]

  -- Without a conversation to keep together, the permit is for the lane with the least spent budget
  -- among all that could serve now, and for the first of those with the same.
  pub attempt-least :
      {permit : Permit}
      → q.session ≡ none
      → (attempt hash q now p).1 ≡ granted permit
      → (l : Lane) × (get_elem? p.lanes permit.lane_idx ≡ some l)
        × ((k : ℕ) (m : Lane)
            → get_elem? p.lanes k ≡ some m
            → IsFree q now k m
            → NoHeavier (spent now l, permit.lane_idx) (spent now m, k))
  attempt-least {permit} alone h = go (attempt-Round hash q now p sound) h
    where
      entry_load :
          {idx n : ℕ} {l : Lane}
          → get_elem? p.lanes idx ≡ some l
          → In {A = ℕ × ℕ} (n, idx) (scanned hash q now p).1.with_room
          → n ≡ spent now l
      entry_load {idx} {n} {l} at m =
          let (a, v) = scan-room q now 0 p.lanes m in
          let same_lane : a.lane ≡ l = ground (arith, At-found q now p.lanes a) in
          subst (λ x. n ≡ spent now x) same_lane
            (Seen-room q now idx a.lane
              (visit-Seen q now idx a.lane (lane-IsSound idx (At-found q now p.lanes a))) v).1

      go :
          {r : Pool × Outcome}
          → Round hash q now p r
          → r.1 ≡ granted permit
          → (l : Lane) × (get_elem? p.lanes permit.lane_idx ≡ some l)
            × ((k : ℕ) (m : Lane)
                → get_elem? p.lanes k ≡ some m
                → IsFree q now k m
                → NoHeavier (spent now l, permit.lane_idx) (spent now m, k))
      go (grants idx l at f c e) h' =
          let (n, m, lightest) = least-min _ (sym (choose_alone hash q _ _ alone) ∙ c) in
          let idx_eq : idx ≡ permit.lane_idx = ground arith in
          (
            l,
            rw (← idx_eq) at,
            λ k l' at' f'.
                rw (← idx_eq, ← entry_load at m)
                  (lightest (spent now l', k)
                    (scan-room_of_zero q now p.lanes k at'
                      (visit-IsFree q now k l' (lane-IsSound k at') f'))),
          )
      go (stays rest e) h' = absurd (ground arith)
