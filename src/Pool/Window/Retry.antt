-- ===== src/Pool/Window/Retry.antt =====
-- What a refusal tells the caller: the time at which the next slot frees, exactly.
use llm_rate_limit_proxy.Base.{
  refl, ℕ, ◌+◌, ◌≤◌, ◌<◌, ◌≡◌, List, [], ◌∷◌, Option, none, some, ok, err, checked_sub, length,
  arith,
}
use llm_rate_limit_proxy.Pool.Window.{SlidingWindow, prune_hits, prune, try_acquire}

pub length-prune_hits : (c : Option ℕ) (hits : List ℕ) → length (prune_hits c hits) ≤ length hits
unfolding prune_hits
length-prune_hits c [] = omega arith
length-prune_hits none (front ∷ rest) = omega arith
length-prune_hits (some c) (front ∷ rest) = ground (arith, length-prune_hits (some c) rest)

-- Pruning earlier changes nothing for a later pruning.
pub prune_hits-twice :
    (window now later : ℕ) (hits : List ℕ)
    → now ≤ later
    → prune_hits (checked_sub later window) (prune_hits (checked_sub now window) hits)
      ≡ prune_hits (checked_sub later window) hits
unfolding prune_hits
prune_hits-twice window now later [] h = ground arith
prune_hits-twice window now later (front ∷ hits) h =
    ground (arith, prune_hits-twice window now later hits h)

-- Nothing is pruned while the oldest hit is younger than the window.
pub prune_hits_young :
    (window now oldest : ℕ) (rest : List ℕ)
    → now < oldest + window
    → prune_hits (checked_sub now window) (oldest ∷ rest) ≡ oldest ∷ rest
unfolding prune_hits
prune_hits_young window now oldest rest young = ground arith

-- What pruning leaves is younger than the window.
prune_hits_head :
    (window now : ℕ) (hits : List ℕ) (oldest : ℕ) (rest : List ℕ)
    → prune_hits (checked_sub now window) hits ≡ oldest ∷ rest
    → now < oldest + window
unfolding prune_hits
prune_hits_head window now [] oldest rest e = ground arith
prune_hits_head window now (front ∷ hits) oldest rest e =
    ground (arith, prune_hits_head window now hits oldest rest)

length-prune_hits_due :
    (window oldest : ℕ) (rest : List ℕ)
    → length (prune_hits (checked_sub (oldest + window) window) (oldest ∷ rest)) ≤ length rest
unfolding prune_hits
length-prune_hits_due window oldest rest = ground (arith, length-prune_hits (some oldest) rest)

-- The state and the answer of a refused request that holds the hits `oldest ∷ rest`.
abbrev saturated : SlidingWindow → ℕ → List ℕ → SlidingWindow
saturated w oldest rest = record w { hits = oldest ∷ rest }

refused_until :
    (w : SlidingWindow) (oldest : ℕ) (rest : List ℕ) (m : ℕ)
    → length (oldest ∷ rest) ≡ w.limit
    → m < oldest + w.window
    → try_acquire (saturated w oldest rest) m ≡ (saturated w oldest rest, err (oldest + w.window))
unfolding try_acquire prune
refused_until w oldest rest m full early =
    ground (arith, prune_hits_young w.window m oldest rest early)

granted_at :
    (w : SlidingWindow) (oldest : ℕ) (rest : List ℕ)
    → length (oldest ∷ rest) ≡ w.limit
    → (try_acquire (saturated w oldest rest) (oldest + w.window)).1 ≡ ok tt
unfolding try_acquire prune
granted_at w oldest rest full = ground (arith, length-prune_hits_due w.window oldest rest)

-- A refusal leaves exactly `limit` hits, the oldest of which gives the time.
refused_shape :
    (w w' : SlidingWindow) (now at : ℕ) (hits : List ℕ)
    → prune_hits (checked_sub now w.window) w.hits ≡ hits
    → 0 < w.limit
    → length w.hits ≤ w.limit
    → try_acquire w now ≡ (w', err at)
    → (oldest : ℕ) × (rest : List ℕ) × (w' ≡ saturated w oldest rest)
      × (at ≡ oldest + w.window)
      × (length (oldest ∷ rest) ≡ w.limit)
      × (now < oldest + w.window)
unfolding try_acquire prune
refused_shape w w' now at [] e pos fits r = absurd (ground arith)
refused_shape w w' now at (oldest ∷ rest) e pos fits r = (
  oldest,
  rest,
  ground arith,
  ground arith,
  ground (arith, length-prune_hits (checked_sub now w.window) w.hits),
  prune_hits_head w.window now w.hits oldest rest e,
)

-- A refusal by a limiter with a positive limit, which holds no more hits than that, names the earliest time at which a
-- slot frees: until then the same request is refused with the same time and changes nothing, and at that time it is
-- granted.
pub try_acquire-retry :
    (w w' : SlidingWindow) (now at : ℕ)
    → 0 < w.limit
    → length w.hits ≤ w.limit
    → try_acquire w now ≡ (w', err at)
    → (now < at)
      × ((m : ℕ) → m < at → try_acquire w' m ≡ (w', err at))
      × ((try_acquire w' at).1 ≡ ok tt)
try_acquire-retry w w' now at pos fits r =
    let (oldest, rest, held, time, full, young) = refused_shape w w' now at _ refl pos fits r in
    rw (held, time)
      (young, λ m early. refused_until w oldest rest m full early, granted_at w oldest rest full)
