-- ===== src/Pool/Lanes/Carry.antt =====
-- What a settings save does to the pace of a key that stays: nothing is forgotten.
use llm_rate_limit_proxy.Base.{
  ℕ, ◌+◌, ◌≤◌, ◌<◌, ◌≡◌, Bool, List, [], ◌∷◌, ◌++◌, Result, ok, err, ltb, false, All, some, Text,
  get_elem?, unwrap_or, checked_sub, length, count_if,
}
use llm_rate_limit_proxy.Pool.Window
use llm_rate_limit_proxy.Pool.Window.{prune_hits}
use llm_rate_limit_proxy.Pool.Lanes.{Pool, same_key, rebuild}
use llm_rate_limit_proxy.Pool.Lane
use llm_rate_limit_proxy.Pool.Lane.{Lane, LaneSpec}

-- A settings save: the other lanes of the pool then, in front of the key's and behind it, the new specs, and the
-- place of the key among them.
pub record Saved : Type 0 where
  pub before : List Lane
  pub after : List Lane
  pub specs : List LaneSpec
  pub place : ℕ

-- What happens to one key: a slot is asked for, or a save rebuilds the pool.
pub data Event : Type 0 where
  ask : ℕ → Event
  save : Saved → Event

abbrev pub pool_of : ℕ → Saved → Lane → Pool
pool_of window e l = record { lanes = e.before ++ l ∷ e.after; window = window }

-- A grant with the time and the rpm in force at that time.
pub record Grant : Type 0 where
  pub at : ℕ
  pub rpm : ℕ

abbrev granted : Lane → ℕ → Result (Unit {0}) ℕ → List Grant → List Grant
granted l now (ok _) log = record { at = now; rpm = l.rpm } ∷ log
granted l now (err _) log = log

-- The lane and the log of its grants, the newest first.
unfoldable pub history : ℕ → List Event → Lane × List Grant → Lane × List Grant
history window [] s = s
history window (ask now ∷ es) (l, log) =
    let next = Lane.try_acquire l now in history window es (next.0, granted l now next.1 log)
history window (save e ∷ es) (l, log) =
    history window es
      (unwrap_or (get_elem? (rebuild (pool_of window e l) e.specs).lanes e.place) l, log)

-- The save keeps the key, whose lane was the first of its provider and secret.
pub record IsKept (provider key : Text) (e : Saved) : Type 0 where
  pub spec : LaneSpec
  pub listed : get_elem? e.specs e.place ≡ some spec
  pub same_provider : spec.provider ≡ provider
  pub same_secret : spec.key ≡ key
  pub first : All (λ l. same_key spec l ≡ false) e.before

-- Times do not decrease, and every save keeps the key.
abbrev pub IsStory : Text → Text → ℕ → List Event → Type 0
IsStory provider key last [] = Unit
IsStory provider key last (ask now ∷ es) = (last ≤ now) × IsStory provider key now es
IsStory provider key last (save e ∷ es) = IsKept provider key e × IsStory provider key last es

-- A grant that still counts against the window at `now`.
abbrev pub recent : ℕ → ℕ → Grant → Bool
recent window now g = ltb now (g.at + window)

-- At every grant, fewer grants than the rpm in force lay in the window that ends there.
abbrev pub IsPaced : ℕ → List Grant → Type 0
IsPaced window [] = Unit
IsPaced window (g ∷ older) = (count_if (recent window g.at) older < g.rpm) × IsPaced window older

-- The hits that a lane still holds cover every grant that counts.
record Covered (provider key : Text) (window last : ℕ) (l : Lane) (log : List Grant) : Type 0 where
  of_provider : l.provider ≡ provider
  of_key : l.key ≡ key
  same_window : l.limiter.window ≡ window
  same_limit : l.limiter.limit ≡ l.rpm
  covers :
      (now : ℕ)
      → last ≤ now
      → count_if (recent window now) log
        ≤ length (prune_hits (checked_sub now window) l.limiter.hits)
  paced : IsPaced window log

module _ (window now : ℕ) (l : Lane) (log : List Grant) {provider key : Text} {last : ℕ}
    (c : Covered provider key window last l log) where
  abbrev left : List ℕ
  left = prune_hits (checked_sub now window) l.limiter.hits
