-- ===== src/Dispatch/Serve.antt =====
-- `acquire_for` terminates: a bound on the rounds that its loop takes.
use llm_rate_limit_proxy.Base.{
  ℕ, ◌≤◌, ◌<◌, ◌≡◌, sym, ap, inl, inr, ◌⊎◌, true, false, List, [], ◌∷◌, none, some, Text, length,
  get_elem?, In, arith, Bool-cases, All, All-imp, In-All, In-get_elem?, subst, checked_sub,
}
use llm_rate_limit_proxy.Pool.Window
use llm_rate_limit_proxy.Pool.Window.{SlidingWindow, prune_hits, prune}
use llm_rate_limit_proxy.Pool.Window.Retry.{length-prune_hits}
use llm_rate_limit_proxy.Pool.Lane
use llm_rate_limit_proxy.Pool.Lane.{Lane}
use llm_rate_limit_proxy.Pool.Lanes.{Pool}
use llm_rate_limit_proxy.Dispatch.{
  Query, Visit, passed_over, visit, Outcome, granted, no_lane, sleep, attempt, Permit, Answer, done,
  waiting, acquire_for, Round, follow,
}
use llm_rate_limit_proxy.Dispatch.Soonest.{scan-soonest_le_zero, scan-soonest_at}
use llm_rate_limit_proxy.Dispatch.Scan.{
  freed, spent, Seen, skip, cool, busy, room, visit-Seen, At-found, get_elem?-scan_zero, due,
  counts, scan-eligible_at, scan-room_of_zero,
}
use llm_rate_limit_proxy.Dispatch.Grant.{IsFree, scanned, after_scan, attempt-Round, grants, stays}
use llm_rate_limit_proxy.Dispatch.Grant
use llm_rate_limit_proxy.Dispatch.Choice.{attempt-free}
use llm_rate_limit_proxy.Dispatch.Wait.{
  IsFit, scan-IsFit, is_cooling, cooling_lanes, cooling_lanes-lt,
}

-- The hits of a saturated lane at the time that its refusal named.
due_budget :
    (window now later limit cap : ℕ) (hits : List ℕ)
    → 0 < limit
    → length hits ≤ limit
    → limit ≤ length hits
    → Window.retry_at (record { limit = cap; window = window; hits = hits }) now ≤ later
    → length (prune_hits (checked_sub later window) hits) < limit
unfolding Window.retry_at prune_hits
due_budget window now later limit cap [] pos le ge t = absurd (omega arith)
due_budget window now later limit cap (oldest ∷ rest) pos le ge t =
    ground (arith, length-prune_hits (checked_sub later window) rest)

cooldown_ends-later :
    (l : Lane) (now later : ℕ)
    → now ≤ later
    → Lane.cooldown_ends l now ≡ none
    → Lane.cooldown_ends l later ≡ none
unfolding Lane.cooldown_ends
cooldown_ends-later l now later h e = ground arith

freed-IsFree :
    (q : Query) (now later k : ℕ) (l : Lane)
    → IsFit l
    → now ≤ later
    → passed_over q k l ≡ false
    → Lane.cooldown_ends l now ≡ none
    → l.rpm ≤ spent now l
    → Window.retry_at (prune l.limiter now) now ≤ later
    → IsFree q later k (freed now l)
unfolding passed_over Lane.cooldown_ends prune
freed-IsFree q now later k l fit h p c b t = record {
  matching = p;
  awake = (unfold Lane.cooldown_ends in cooldown_ends-later l now later h c);
  budget =
      due_budget l.limiter.window now later l.rpm l.limiter.limit
        (prune_hits (checked_sub now l.limiter.window) l.limiter.hits) fit.positive
        (omega
          (arith, fit.within, length-prune_hits (checked_sub now l.limiter.window) l.limiter.hits))
        b t;
}

-- What a visit that names a time means for a later round.
module _ (q : Query) (now later k : ℕ) (l : Lane) (fit : IsFit l) (h : now ≤ later) where
  due_cases :
      {t : ℕ}
      → due (visit q now k l).1 ≡ some t
      → t ≤ later
      → ((is_cooling q now k l ≡ true) × (is_cooling q later k l ≡ false))
        ⊎ IsFree q later k (visit q now k l).0
  due_cases {t} d le = go (visit-Seen q now k l fit.sound) d
    where
      go :
          {v : Lane × Visit}
          → Seen q now k l v
          → due v.1 ≡ some t
          → ((is_cooling q now k l ≡ true) × (is_cooling q later k l ≡ false))
            ⊎ IsFree q later k v.0
      go (skip p e) d' = absurd (ground arith)
      go (cool until p c e) d' =
          let same_time : until ≡ t = ground arith in
          inl (ground arith, unfold Lane.cooldown_ends in ground arith)
      go (busy p c b e) d' =
          let same_time : Window.retry_at (prune l.limiter now) now ≡ t = ground arith in
          inr (
            subst (λ (v : Lane × Visit). IsFree q later k v.0) (sym e)
              (freed-IsFree q now later k l fit h p c b (omega arith)))
      go (room p c b e) d' = absurd (ground arith)

-- The next round comes no earlier than the time that this one slept for.
abbrev pub Waited : ℕ → Outcome → List Round → Type 0
Waited now (sleep (some t)) (r ∷ rs) = (t ≤ r.now) × (now ≤ r.now)
Waited now _ rs = Unit

abbrev pub IsAnswered : Answer → Type 0
IsAnswered (done _) = Unit
IsAnswered waiting = ⊥

module _ (hash : ℕ → Text → Text → ℕ) (q : Query) where
  -- The rounds of one call, on a pool that nobody else touches.
  abbrev pub IsOnTime : List Round → Pool → Type 0
  IsOnTime [] p = Unit
  IsOnTime (r ∷ rs) p =
      (r.meanwhile p ≡ p)
      × Waited r.now (attempt hash q r.now p).1 rs
      × IsOnTime rs (attempt hash q r.now p).0

  acquire_for-cons :
      (r : Round) (rs : List Round) (p : Pool)
      → r.meanwhile p ≡ p
      → acquire_for hash q (r ∷ rs) p ≡ follow (attempt hash q r.now p) (acquire_for hash q rs)
  unfolding acquire_for
  acquire_for-cons r rs p e = ap (λ x. follow (attempt hash q r.now x) (acquire_for hash q rs)) e

  -- A round that finds a free lane answers.
  free-IsAnswered :
      (r : Round) (rs : List Round) (p : Pool)
      → r.meanwhile p ≡ p
      → All IsFit p.lanes
      → (k : ℕ) {l : Lane} → get_elem? p.lanes k ≡ some l
      → IsFree q r.now k l
      → IsAnswered (acquire_for hash q (r ∷ rs) p).1
  free-IsAnswered r rs p e fit k at f = rw (acquire_for-cons r rs p e) (
      go (attempt hash q r.now p)
        (attempt-free hash q r.now p (All-imp (λ l x. x.sound) p.lanes fit) k at f))
    where
      go :
          (x : Pool × Outcome)
          → (permit : Permit) × (x.1 ≡ granted permit)
          → IsAnswered (follow x (acquire_for hash q rs)).1
      go x g = subst (λ o. IsAnswered (follow (x.0, o) (acquire_for hash q rs)).1) (sym g.1) tt

  -- A saturated round names the time for which it sleeps.
  names_time :
      (now : ℕ) (p : Pool)
      → All IsFit p.lanes
      → (scanned hash q now p).1.with_room ≡ []
      → (scanned hash q now p).1.eligible ≡ true
      → (s : ℕ) × ((scanned hash q now p).1.soonest ≡ some s)
  names_time now p fit empty el =
      let (j, a, c) = scan-eligible_at q now 0 p.lanes el in
      let at = At-found q now p.lanes a in
      let (d, e) =
        go at (visit-Seen q now j a.lane (In-All IsFit fit (In-get_elem? p.lanes j at)).sound) c in
      let (s, e', _) = scan-soonest_le_zero q now p.lanes j at e in (s, e')
    where
      no_entry : {r : ℕ × ℕ} → In r [] → ⊥
      no_entry m = elim m [ ]

      go :
          {j : ℕ} {l : Lane}
          → get_elem? p.lanes j ≡ some l
          → Seen q now j l (visit q now j l)
          → counts (visit q now j l).1 ≡ true
          → (t : ℕ) × (due (visit q now j l).1 ≡ some t)
      go at (skip x e) c = absurd (ground arith)
      go at (cool t x c' e) c = (t, ground arith)
      go at (busy x c' b e) c = (_, ap (λ (v : Lane × Visit). due v.1) e)
      go at (room x c' b e) c = absurd (
          no_entry (
            subst (In _) empty
              (scan-room_of_zero q now p.lanes _ at (ap (λ (v : Lane × Visit). v.1) e))))

  -- On a pool that nobody else touches, whose lanes each have a positive rpm, enforce it, and hold no more hits than
  -- it, `acquire_for` answers, with a permit or with the news that no lane is eligible, within two rounds more than
  -- there are eligible lanes on the bench, where no round comes before the time that the one before it waits for.
  pub acquire_for-IsAnswered :
      (r : Round) (rs : List Round) (p : Pool)
      → All IsFit p.lanes
      → IsOnTime (r ∷ rs) p
      → cooling_lanes q r.now 0 p.lanes < length rs
      → IsAnswered (acquire_for hash q (r ∷ rs) p).1
  acquire_for-IsAnswered r [] p fit t lt = absurd (omega arith)
  acquire_for-IsAnswered r (r' ∷ rs) p fit t lt = rw (acquire_for-cons r (r' ∷ rs) p t.0) (
      go (attempt hash q r.now p)
        (attempt-Round hash q r.now p (All-imp (λ l x. x.sound) p.lanes fit)) t.1 t.2
        (acquire_for-IsAnswered r' rs))
    where
      left : All IsFit (after_scan hash q r.now p).lanes
      left = scan-IsFit q r.now 0 p.lanes fit

      slept :
          (s : ℕ)
          → (scanned hash q r.now p).1.soonest ≡ some s
          → (s ≤ r'.now) × (r.now ≤ r'.now)
          → IsOnTime (r' ∷ rs) (after_scan hash q r.now p)
          → ((p' : Pool)
              → All IsFit p'.lanes
              → IsOnTime (r' ∷ rs) p'
              → cooling_lanes q r'.now 0 p'.lanes < length rs
              → IsAnswered (acquire_for hash q (r' ∷ rs) p').1)
          → IsAnswered (acquire_for hash q (r' ∷ rs) (after_scan hash q r.now p)).1
      slept s e w t' again =
          let (j, a, d) = scan-soonest_at q r.now 0 p.lanes e in
          let at = At-found q r.now p.lanes a in
          elim (due_cases q r.now r'.now j a.lane (In-All IsFit fit (In-get_elem? p.lanes j at)) w.1
            d w.0) [
              | inl (c, c') ↦ again (after_scan hash q r.now p) left t' (
                  omega (
                    arith,
                    cooling_lanes-lt q r.now r'.now 0 a.k p.lanes fit w.1 a.found
                        (subst (λ n. is_cooling q r.now n a.lane ≡ true) a.place c)
                        (subst (λ n. is_cooling q r'.now n a.lane ≡ false) a.place c'),
                  ))
              | inr f ↦
                  free-IsAnswered r' rs (after_scan hash q r.now p) t'.0 left j
                    (get_elem?-scan_zero q r.now p.lanes j at) f
            ]

      go :
          (x : Pool × Outcome)
          → Grant.Round hash q r.now p x
          → Waited r.now x.1 (r' ∷ rs)
          → IsOnTime (r' ∷ rs) x.0
          → ((p' : Pool)
              → All IsFit p'.lanes
              → IsOnTime (r' ∷ rs) p'
              → cooling_lanes q r'.now 0 p'.lanes < length rs
              → IsAnswered (acquire_for hash q (r' ∷ rs) p').1)
          → IsAnswered (follow x (acquire_for hash q (r' ∷ rs))).1
      go x (grants idx l at f c e) w t' again =
          subst (λ y. IsAnswered (follow y (acquire_for hash q (r' ∷ rs))).1) (sym e) tt
      go x (stays empty e) w t' again = elim (Bool-cases (scanned hash q r.now p).1.eligible) [
        | inr el ↦
            let ex : x ≡ (after_scan hash q r.now p, no_lane) = rw el at e in
            subst (λ (y : Pool × Outcome). IsAnswered (follow y (acquire_for hash q (r' ∷ rs))).1)
              (sym ex) tt
        | inl el ↦
            let (s, es) = names_time r.now p fit empty el in
            let ex : x ≡ (after_scan hash q r.now p, sleep (some s)) = rw (el, es) at e in
            subst (λ (y : Pool × Outcome). IsAnswered (follow y (acquire_for hash q (r' ∷ rs))).1)
              (sym ex)
              (slept s es (subst (λ (y : Pool × Outcome). Waited r.now y.1 (r' ∷ rs)) ex w)
                (subst (λ (y : Pool × Outcome). IsOnTime (r' ∷ rs) y.0) ex t') again)
      ]
