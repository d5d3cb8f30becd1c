-- ===== src/Dispatch/Wait.antt =====
-- The head of the queue is served: how many rounds it can take, and that the wait is no longer
-- than it must be.
use llm_rate_limit_proxy.Base.{
  ℕ, zero, suc, ◌+◌, ◌≤◌, ◌<◌, ◌≡◌, refl, sym, ap, ◌∙◌, Bool, true, false, List, [], ◌∷◌, none,
  some, if◌then◌else◌, length, get_elem?, arith, All, subst, checked_sub,
}
use llm_rate_limit_proxy.Pool.Window.{prune}
use llm_rate_limit_proxy.Pool.Window.Retry.{length-prune_hits}
use llm_rate_limit_proxy.Pool.Lane
use llm_rate_limit_proxy.Pool.Lane.{Lane}
use llm_rate_limit_proxy.Dispatch.{Query, Visit, passed_over, visit, scan}
use llm_rate_limit_proxy.Dispatch.Scan.{freed, IsSound, Seen, skip, cool, busy, room, visit-Seen}

-- A lane whose limiter enforces a positive rpm and holds no more hits than that.
pub record IsFit (l : Lane) : Type 0 where
  pub sound : IsSound l
  pub positive : 0 < l.rpm
  pub within : length l.limiter.hits ≤ l.rpm

freed-IsFit : (now : ℕ) (l : Lane) → IsFit l → IsFit (freed now l)
unfolding prune
freed-IsFit now l f = record {
  sound = f.sound;
  positive = f.positive;
  within =
      omega (arith, f.within, length-prune_hits (checked_sub now l.limiter.window) l.limiter.hits);
}

-- The lane that a visit leaves.
pub visit-Left : (q : Query) (now k : ℕ) (l : Lane) → IsFit l → IsFit (visit q now k l).0
visit-Left q now k l f = go (visit-Seen q now k l f.sound)
  where
    go : {v : Lane × Visit} → Seen q now k l v → IsFit v.0
    go (skip p e) = subst (λ (v : Lane × Visit). IsFit v.0) (sym e) f
    go (cool t p c e) = subst (λ (v : Lane × Visit). IsFit v.0) (sym e) f
    go (busy p c b e) = subst (λ (v : Lane × Visit). IsFit v.0) (sym e) (freed-IsFit now l f)
    go (room p c b e) = subst (λ (v : Lane × Visit). IsFit v.0) (sym e) (freed-IsFit now l f)

pub scan-IsFit :
    (q : Query) (now i : ℕ) (ls : List Lane) → All IsFit ls → All IsFit (scan q now i ls).0
unfolding scan
scan-IsFit q now i [] h = tt
scan-IsFit q now i (l ∷ ls) h = (visit-Left q now i l h.0, scan-IsFit q now (suc i) ls h.1)

-- A lane that waits for the end of its bench.
abbrev pub is_cooling : Query → ℕ → ℕ → Lane → Bool
is_cooling q now k l = elim (passed_over q k l) [
  | true ↦ false
  | false ↦ elim (Lane.cooldown_ends l now) [ none ↦ false | some _ ↦ true ]
]

unfoldable pub cooling_lanes : Query → ℕ → ℕ → List Lane → ℕ
cooling_lanes q now k [] = 0
cooling_lanes q now k (l ∷ ls) =
    (if is_cooling q now k l then 1 else 0) + cooling_lanes q now (suc k) ls

visit-is_cooling :
    (q : Query) (now later k j : ℕ) (l : Lane)
    → IsSound l
    → is_cooling q later j (visit q now k l).0 ≡ is_cooling q later j l
visit-is_cooling q now later k j l sound = go (visit-Seen q now k l sound)
  where
    go : {v : Lane × Visit} → Seen q now k l v → is_cooling q later j v.0 ≡ is_cooling q later j l
    go (skip p e) = ap (λ (v : Lane × Visit). is_cooling q later j v.0) e
    go (cool t p c e) = ap (λ (v : Lane × Visit). is_cooling q later j v.0) e
    go (busy p c b e) =
        ap (λ (v : Lane × Visit). is_cooling q later j v.0) e
        ∙ (unfold passed_over Lane.cooldown_ends in refl)
    go (room p c b e) =
        ap (λ (v : Lane × Visit). is_cooling q later j v.0) e
        ∙ (unfold passed_over Lane.cooldown_ends in refl)

is_cooling-later :
    (q : Query) (now later k : ℕ) (l : Lane)
    → now ≤ later
    → is_cooling q later k l ≡ true
    → is_cooling q now k l ≡ true
unfolding Lane.cooldown_ends
is_cooling-later q now later k l h c = ground arith

-- Over time, lanes stop cooling and none starts.
pub cooling_lanes-le :
    (q : Query) (now later k : ℕ) (ls : List Lane)
    → All IsFit ls
    → now ≤ later
    → cooling_lanes q later k (scan q now k ls).0 ≤ cooling_lanes q now k ls
unfolding cooling_lanes scan
cooling_lanes-le q now later k [] fit h = omega arith
cooling_lanes-le q now later k (l ∷ ls) fit h =
    rw (visit-is_cooling q now later k k l fit.0.sound) (
      one (is_cooling q later k l) (is_cooling q now k l) (is_cooling-later q now later k l h)
        (cooling_lanes-le q now later (suc k) ls fit.1 h))
  where
    one :
        (a b : Bool) {m n : ℕ}
        → (a ≡ true → b ≡ true)
        → m ≤ n
        → (if a then 1 else 0) + m ≤ (if b then 1 else 0) + n
    one a b i le = ground arith

-- A lane whose bench ends in between is one less.
pub cooling_lanes-lt :
    (q : Query) (now later i k : ℕ) (ls : List Lane) {l : Lane}
    → All IsFit ls
    → now ≤ later
    → get_elem? ls k ≡ some l
    → is_cooling q now (i + k) l ≡ true
    → is_cooling q later (i + k) l ≡ false
    → cooling_lanes q later i (scan q now i ls).0 < cooling_lanes q now i ls
unfolding cooling_lanes scan
cooling_lanes-lt q now later i k [] fit h at c c' = absurd (ground arith)
cooling_lanes-lt q now later i zero (x ∷ ls) {l} fit h at c c' =
    let e : x ≡ l = ground arith in
    let e' : i ≡ i + 0 = omega arith in
    ground (
      arith,
      visit-is_cooling q now later i i x fit.0.sound,
      cooling_lanes-le q now later (suc i) ls fit.1 h,
    )
cooling_lanes-lt q now later i (suc k) (x ∷ ls) {l} fit h at c c' =
    rw (visit-is_cooling q now later i i x fit.0.sound) (
      one (is_cooling q later i x) (is_cooling q now i x) (is_cooling-later q now later i x h) (
        cooling_lanes-lt q now later (suc i) k ls fit.1 h at
          (subst (λ n. is_cooling q now n l ≡ true) {x = i + suc k} {y = suc i + k} (omega arith) c)
          (subst (λ n. is_cooling q later n l ≡ false) {x = i + suc k} {y = suc i + k} (omega arith)
            c')))
  where
    one :
        (a b : Bool) {m n : ℕ}
        → (a ≡ true → b ≡ true)
        → m < n
        → (if a then 1 else 0) + m < (if b then 1 else 0) + n
    one a b i le = ground arith
