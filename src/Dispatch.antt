-- ===== src/Dispatch.antt =====
-- src/dispatch.rs: the FIFO dispatcher. A scan of the lanes goes from the last to the first here;
-- it meets each lane once and joins the same minimum, so the order makes no difference.
pub mod Match
pub mod Scan
pub mod Soonest
pub mod Least
pub mod Grant
pub mod Choice
pub mod Wait
pub mod Fits
pub mod Serve
mod Examples
use llm_rate_limit_proxy.Base.{
  ℕ, zero, suc, ◌+◌, Bool, true, false, not, List, [], ◌∷◌, map, Option, none, some, Text, same,
  ltb, ◌==◌, if◌then◌else◌, ◌||◌, ◌&&◌, Result, ok, err, is_some_and, or_option, get_elem?, set,
  any, min, ◌==◌, map_or,
}
use llm_rate_limit_proxy.Config.{Protocol, same_protocol}
use llm_rate_limit_proxy.Pool.Lane
use llm_rate_limit_proxy.Pool.Lane.{Lane}
use llm_rate_limit_proxy.Pool.Lanes.{Pool}
use llm_rate_limit_proxy.Pool.Affinity.{affinity_among}

-- The arguments of `acquire_for`.
pub record Query : Type 0 where
  pub provider : Option Text
  pub exclude : List ℕ
  pub session : Option ℕ
  pub protocol : Option Protocol

pub record Permit : Type 0 where
  pub lane_idx : ℕ
  pub provider : Text
  pub base_url : Text
  pub key : Text
  pub protocol : Protocol

-- The test that skips a lane.
unfoldable pub passed_over : Query → ℕ → Lane → Bool
passed_over q idx l =
    is_some_and q.provider (λ p. not (same l.provider p))
    || (is_some_and q.protocol (λ w. not (same_protocol l.protocol w))
        || any (λ x. x == idx) q.exclude)

-- What the loop body learns about one lane: `slipped` is a saturated lane that grants after all.
pub data Visit : Type 0 where
  skipped slipped : Visit
  cooling full : ℕ → Visit
  roomy : ℕ → Visit

visit_saturated : Lane × Result (Unit {0}) ℕ → Lane × Visit
visit_saturated (l, ok _) = (l, slipped)
visit_saturated (l, err retry_at) = (l, full retry_at)

unfoldable pub visit : Query → ℕ → ℕ → Lane → Lane × Visit
unfolding visit_saturated
visit q now idx l = if passed_over q idx l then (l, skipped) else elim (Lane.cooldown_ends l now) [
  | some until ↦ (l, cooling until)
  | none ↦
      let loaded = Lane.load l now in
      if ltb loaded.1 l.rpm
      then (loaded.0, roomy loaded.1)
      else visit_saturated (Lane.try_acquire loaded.0 now)
]

pub record Summary : Type 0 where
  pub soonest : Option ℕ
  pub eligible : Bool
  pub with_room : List (ℕ × ℕ)

unfoldable pub earlier : Option ℕ → ℕ → Option ℕ
earlier none t = some t
earlier (some s) t = some (min s t)

unfoldable pub note : ℕ → Visit → Summary → Summary
unfolding earlier
note idx skipped s = s
note idx slipped s = record s { eligible = true }
note idx (cooling until) s = record s { eligible = true; soonest = earlier s.soonest until }
note idx (full at) s = record s { eligible = true; soonest = earlier s.soonest at }
note idx (roomy n) s = record s { eligible = true; with_room = (n, idx) ∷ s.with_room }

unfoldable pub scan : Query → ℕ → ℕ → List Lane → List Lane × Summary
scan q now idx [] = ([], record { soonest = none; eligible = false; with_room = [] })
scan q now idx (l ∷ ls) =
    let seen = visit q now idx l in
    let rest = scan q now (suc idx) ls in (seen.0 ∷ rest.0, note idx seen.1 rest.1)

-- The least pair, the load first: `with_room.iter().min()`.
unfoldable pub lighter : ℕ × ℕ → ℕ × ℕ → Bool
lighter a b = ltb a.0 b.0 || ((a.0 == b.0) && ltb a.1 b.1)

unfoldable pub least_from : ℕ × ℕ → List (ℕ × ℕ) → ℕ × ℕ
unfolding lighter
least_from best [] = best
least_from best (r ∷ rs) = least_from (if lighter r best then r else best) rs

unfoldable pub least : List (ℕ × ℕ) → Option ℕ
least [] = none
least (r ∷ rs) = some (least_from r rs).1

pub data Outcome : Type 0 where
  granted : Permit → Outcome
  no_lane : Outcome
  sleep : Option ℕ → Outcome

abbrev pub permit_of : ℕ → Lane → Permit
permit_of idx l = record {
  lane_idx = idx;
  provider = l.provider;
  base_url = l.base_url;
  key = l.key;
  protocol = l.protocol;
}

module _ (hash : ℕ → Text → Text → ℕ) where
  -- The conversation's own lane among those with room.
  unfoldable pub hint : Option ℕ → Pool → List (ℕ × ℕ) → Option ℕ
  hint none p with_room = none
  hint (some session) p with_room = affinity_among hash p session (map (λ r. r.1) with_room)

  unfoldable pub choose : Query → Pool → List (ℕ × ℕ) → Option ℕ
  choose q p with_room = or_option (hint q.session p with_room) (least with_room)

-- After the choice failed, or where there was none.
unfoldable pub no_choice : Pool → Summary → Pool × Outcome
no_choice p s = if s.eligible then (p, sleep s.soonest) else (p, no_lane)

take_slot : Pool → Summary → ℕ → Lane → Lane × Result (Unit {0}) ℕ → Pool × Outcome
unfolding no_choice
take_slot p s idx l (l', ok _) =
    (record p { lanes = set p.lanes idx l' }, granted (permit_of idx l))
take_slot p s idx l (l', err _) = no_choice (record p { lanes = set p.lanes idx l' }) s

unfoldable pub settle : Pool → Summary → ℕ → Option ℕ → Pool × Outcome
unfolding take_slot no_choice
settle p s now none = no_choice p s
settle p s now (some idx) = elim (get_elem? p.lanes idx) [
  | none ↦ no_choice p s
  | some l ↦ take_slot p s idx l (Lane.try_acquire l now)
]

-- What a round finds: its time, and what others did to the pool since the last one.
pub record Round : Type 0 where
  pub now : ℕ
  pub meanwhile : Pool → Pool

pub data Answer : Type 0 where
  done : Option Permit → Answer
  waiting : Answer

-- Return, or sleep and go round again.
abbrev pub follow : Pool × Outcome → (Pool → Pool × Answer) → Pool × Answer
follow (p, granted permit) again = (p, done (some permit))
follow (p, no_lane) again = (p, done none)
follow (p, sleep _) again = again p

module _ (hash : ℕ → Text → Text → ℕ) where
  -- One round of the loop of `acquire_for`, at the time `now`.
  unfoldable pub attempt : Query → ℕ → Pool → Pool × Outcome
  unfolding settle
  attempt q now p =
      let scanned = scan q now 0 p.lanes in
      let p' = record p { lanes = scanned.0 } in
      settle p' scanned.1 now (choose hash q p' scanned.1.with_room)

  unfoldable pub acquire_for : Query → List Round → Pool → Pool × Answer
  acquire_for q [] p = (p, waiting)
  acquire_for q (r ∷ rs) p = follow (attempt q r.now (r.meanwhile p)) (acquire_for q rs)
