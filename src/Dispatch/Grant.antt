-- ===== src/Dispatch/Grant.antt =====
-- One round of `acquire_for`: when it grants, what it grants, and what it leaves alone.
use llm_rate_limit_proxy.Base.{
  ℕ, ◌<◌, ◌≡◌, refl, ap, ◌∙◌, inl, inr, ◌⊎◌, false, List, [], ◌∷◌, ◌++◌, Option, none, some, Text,
  ok, if◌then◌else◌, get_elem?, set, In, checked_sub, arith, Option-cases, All, or_option, In-All,
  In-get_elem?,
}
use llm_rate_limit_proxy.Pool.Window
use llm_rate_limit_proxy.Pool.Window.{SlidingWindow, prune_hits, prune}
use llm_rate_limit_proxy.Pool.Window.Retry.{prune_hits-twice}
use llm_rate_limit_proxy.Pool.Lane
use llm_rate_limit_proxy.Pool.Lane.{Lane}
use llm_rate_limit_proxy.Pool.Lanes.{Pool}
use llm_rate_limit_proxy.Pool.Affinity.{affinity_among, max_by_key-In}
use llm_rate_limit_proxy.Dispatch.{
  Query, Visit, roomy, passed_over, visit, Summary, scan, least, Outcome, granted, no_lane, sleep,
  permit_of, hint, choose, no_choice, settle, take_slot, attempt,
}
use llm_rate_limit_proxy.Dispatch.Least.{In-map_snd, least-min}
use llm_rate_limit_proxy.Dispatch.Scan.{
  freed, spent, IsSound, Seen, skip, cool, busy, room, visit-Seen, scan-room, get_elem?-scan_zero,
  At-found,
}

-- A lane that could serve the query now: not passed over, not benched, with budget left.
pub record IsFree (q : Query) (now idx : ℕ) (l : Lane) : Type 0 where
  pub matching : passed_over q idx l ≡ false
  pub awake : Lane.cooldown_ends l now ≡ none
  pub budget : spent now l < l.rpm

-- The lane after the grant: its expired hits gone, the new one recorded.
abbrev pub taken : ℕ → Lane → Lane
taken now l = record l {
  limiter = record (l.limiter) {
    hits = prune_hits (checked_sub now l.limiter.window) l.limiter.hits ++ now ∷ [];
  };
}

pub Seen-room :
    (q : Query) (now idx : ℕ) (l : Lane) {n : ℕ} {v : Lane × Visit}
    → Seen q now idx l v
    → v.1 ≡ roomy n
    → IsFree q now idx l × (n ≡ spent now l) × (v.0 ≡ freed now l)
Seen-room q now idx l (skip p e) r = absurd (ground arith)
Seen-room q now idx l (cool t p c e) r = absurd (ground arith)
Seen-room q now idx l (busy p c b e) r = absurd (ground arith)
Seen-room q now idx l (room p c b e) r =
    (record { matching = p; awake = c; budget = b }, ground arith, ground arith)

pub visit-IsFree :
    (q : Query) (now idx : ℕ) (l : Lane)
    → IsSound l
    → IsFree q now idx l
    → (visit q now idx l).1 ≡ roomy (spent now l)
visit-IsFree q now idx l sound f = go (visit-Seen q now idx l sound)
  where
    go : {v : Lane × Visit} → Seen q now idx l v → v.1 ≡ roomy (spent now l)
    go (skip p e) = absurd (ground (arith, f.matching))
    go (cool t p c e) = absurd (ground (arith, f.awake))
    go (busy p c b e) = absurd (omega (arith, f.budget))
    go (room p c b e) = ground arith

freed-try_acquire :
    (now : ℕ) (l : Lane)
    → IsSound l
    → spent now l < l.rpm
    → Lane.try_acquire (freed now l) now ≡ (taken now l, ok tt)
unfolding Lane.try_acquire Window.try_acquire prune
freed-try_acquire now l sound h =
    rw (prune_hits-twice l.limiter.window now now l.limiter.hits (omega arith)) (ground arith)

or_option_cases {ℓ} :
    {A : Type ℓ} (a b : Option A) {x : A}
    → or_option a b ≡ some x
    → (a ≡ some x) ⊎ ((a ≡ none) × (b ≡ some x))
or_option_cases none b h = inr (refl, h)
or_option_cases (some y) b h = inl h

or_option-eq-none {ℓ} :
    {A : Type ℓ} (a b : Option A) → or_option a b ≡ none → (a ≡ none) × (b ≡ none)
or_option-eq-none none b h = (refl, h)
or_option-eq-none (some y) b h = absurd (ground arith)

least-eq-none : (rs : List (ℕ × ℕ)) → least rs ≡ none → rs ≡ []
unfolding least
least-eq-none [] h = refl
least-eq-none (r ∷ rs) h = absurd (ground arith)

module _ (hash : ℕ → Text → Text → ℕ) where
  hint-In :
      (s : Option ℕ) (p : Pool) (rs : List (ℕ × ℕ)) {i : ℕ}
      → hint hash s p rs ≡ some i
      → (n : ℕ) × In (n, i) rs
  unfolding hint affinity_among
  hint-In none p rs h = absurd (ground arith)
  hint-In (some s) p rs {i} h = In-map_snd i rs (max_by_key-In _ _ h)

  -- The lane that the choice picks has an entry in `with_room`.
  pub choose-In :
      (q : Query) (p : Pool) (rs : List (ℕ × ℕ)) {i : ℕ}
      → choose hash q p rs ≡ some i
      → (n : ℕ) × In (n, i) rs
  unfolding choose
  choose-In q p rs h = elim (or_option_cases (hint hash q.session p rs) (least rs) h) [
    | inl e ↦ hint-In q.session p rs e
    | inr (_, e) ↦ let (n, m, _) = least-min rs e in (n, m)
  ]

  choose-none : (q : Query) (p : Pool) (rs : List (ℕ × ℕ)) → choose hash q p rs ≡ none → rs ≡ []
  unfolding choose
  choose-none q p rs h =
      least-eq-none rs (or_option-eq-none (hint hash q.session p rs) (least rs) h).1

  abbrev pub scanned : Query → ℕ → Pool → List Lane × Summary
  scanned q now p = scan q now 0 p.lanes

  abbrev pub after_scan : Query → ℕ → Pool → Pool
  after_scan q now p = record p { lanes = (scanned q now p).0 }

  -- What a round does, on a pool of sound lanes.
  pub data Round (q : Query) (now : ℕ) (p : Pool) (r : Pool × Outcome) : Type 0 where
    grants :
        (idx : ℕ) (l : Lane)
        → get_elem? p.lanes idx ≡ some l
        → IsFree q now idx l
        → choose hash q (after_scan q now p) (scanned q now p).1.with_room ≡ some idx
        → r ≡ (
          record p { lanes = set (scanned q now p).0 idx (taken now l) },
          granted (permit_of idx l),
        )
        → Round q now p r
    stays :
        (scanned q now p).1.with_room ≡ []
        → r ≡ (
          after_scan q now p,
          if (scanned q now p).1.eligible then sleep (scanned q now p).1.soonest else no_lane,
        )
        → Round q now p r

  settle_room :
      (p : Pool) (s : Summary) (now idx : ℕ) {l l' : Lane}
      → get_elem? p.lanes idx ≡ some l
      → Lane.try_acquire l now ≡ (l', ok tt)
      → settle p s now (some idx)
        ≡ (record p { lanes = set p.lanes idx l' }, granted (permit_of idx l))
  unfolding settle
  settle_room p s now idx {l} e t = rw (e, settle) (ap (take_slot p s idx l) t)

  pub attempt-Round :
      (q : Query) (now : ℕ) (p : Pool) → All IsSound p.lanes → Round q now p (attempt hash q now p)
  unfolding attempt
  attempt-Round q now p sound =
      elim (Option-cases (choose hash q (after_scan q now p) (scanned q now p).1.with_room)) [
        | inl e ↦
            stays (choose-none q (after_scan q now p) (scanned q now p).1.with_room e)
              (unfold settle no_choice in rw e (ground arith))
        | inr (idx, e) ↦
            let (n, m) = choose-In q (after_scan q now p) (scanned q now p).1.with_room e in
            let (a, v) = scan-room q now 0 p.lanes m in
            let at_idx : get_elem? p.lanes idx ≡ some a.lane = At-found q now p.lanes a in
            let sound_l = In-All IsSound sound (In-get_elem? p.lanes idx at_idx) in
            let (f, _, left) = Seen-room q now idx a.lane (visit-Seen q now idx a.lane sound_l) v in
            let placed : get_elem? (scanned q now p).0 idx ≡ some (freed now a.lane) =
              get_elem?-scan_zero q now p.lanes idx at_idx ∙ ap some left in
            grants idx a.lane at_idx f e (
              rw e (
                settle_room (after_scan q now p) (scanned q now p).1 now idx placed
                  (freed-try_acquire now a.lane sound_l f.budget)))
      ]
