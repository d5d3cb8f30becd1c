-- ===== src/Pool/Window.antt =====
-- `SlidingWindow` of src/pool.rs. Times are numbers of one unit, counted from the clock's origin.
pub mod Rate
pub mod Retry
pub mod Whole
use llm_rate_limit_proxy.Base.{
  ℕ, ◌+◌, List, [], ◌∷◌, ◌++◌, Option, none, some, Result, ok, err, ltb, leb, if◌then◌else◌,
  checked_sub, length,
}

-- `hits` is the deque, its front first.
pub record SlidingWindow : Type 0 where
  pub limit : ℕ
  pub window : ℕ
  pub hits : List ℕ

unfoldable pub new : ℕ → ℕ → SlidingWindow
new limit window = record { limit = limit; window = window; hits = [] }

-- The `while let` of `prune`: hits leave at the front while they are at or before the cutoff.
unfoldable pub prune_hits : Option ℕ → List ℕ → List ℕ
prune_hits cutoff [] = []
prune_hits none (front ∷ rest) = front ∷ rest
prune_hits (some c) (front ∷ rest) = if leb front c then prune_hits (some c) rest else front ∷ rest

unfoldable pub prune : SlidingWindow → ℕ → SlidingWindow
prune w now = record w { hits = prune_hits (checked_sub now w.window) w.hits }

-- `load` prunes in place, so the window is returned too.
unfoldable pub load : SlidingWindow → ℕ → SlidingWindow × ℕ
load w now = let w' = prune w now in (w', length w'.hits)

unfoldable pub retry_at : SlidingWindow → ℕ → ℕ
retry_at w now = elim w.hits [ [] ↦ now + w.window | oldest ∷ _ ↦ oldest + w.window ]

unfoldable pub try_acquire : SlidingWindow → ℕ → SlidingWindow × Result (Unit {0}) ℕ
unfolding retry_at
try_acquire w now =
    let w' = prune w now in
    if ltb (length w'.hits) w'.limit
    then (record w' { hits = w'.hits ++ now ∷ [] }, ok tt)
    else (w', err (retry_at w' now))
