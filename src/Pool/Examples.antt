-- ===== src/Pool/Examples.antt =====
-- The pool's theorems at concrete inputs, and runs that can be followed in the source.
use llm_rate_limit_proxy.Base.{
  ℕ, ◌≤◌, ◌<◌, ◌≡◌, refl, [], ◌∷◌, none, some, Text, codes, ok, err, arith, count_if, In, here,
  there, ◌+◌, ◌↔◌,
}
use llm_rate_limit_proxy.Config.{open_ai}
use llm_rate_limit_proxy.Pool.Window
use llm_rate_limit_proxy.Pool.Window.{SlidingWindow, prune, prune_hits}
use llm_rate_limit_proxy.Pool.Window.Rate.{grants, within, grants-le-limit}
use llm_rate_limit_proxy.Pool.Window.Whole.{grants_from, grants-whole}
use llm_rate_limit_proxy.Pool.Window.Retry.{try_acquire-retry}
use llm_rate_limit_proxy.Pool.Lane
use llm_rate_limit_proxy.Pool.Lane.{Lane, LaneSpec, benched-bench}
use llm_rate_limit_proxy.Pool.Lanes.{Pool}
use llm_rate_limit_proxy.Pool.Lanes.Carry.{Saved}
use llm_rate_limit_proxy.Pool.Affinity.{
  affinity_among, affinity_lane, weight, max_by_key, max_from, range_from,
}

-- The limiter of the test `window_allows_limit_then_blocks_then_recovers`.
abbrev two_a_minute : SlidingWindow
two_a_minute = record { limit = 2; window = 60; hits = 0 ∷ 1 ∷ [] }

blocked : Window.try_acquire two_a_minute 2 ≡ (two_a_minute, err 60)
unfolding Window.try_acquire prune prune_hits
blocked = refl

recovers : grants (Window.new 2 60) (0 ∷ 1 ∷ 2 ∷ 61 ∷ []) ≡ 0 ∷ 1 ∷ 61 ∷ []
unfolding grants Window.try_acquire prune prune_hits Window.new
recovers = refl

grants-le-limit_example :
    count_if (within 60 1) (grants (Window.new 2 60) (0 ∷ 1 ∷ 2 ∷ 61 ∷ [])) ≤ 2
grants-le-limit_example = grants-le-limit 2 60 (0 ∷ 1 ∷ 2 ∷ 61 ∷ []) (omega arith) 1

grants-whole_example :
    grants (Window.new 2 60) (0 ∷ 1 ∷ 2 ∷ 61 ∷ []) ≡ grants_from 2 60 [] (0 ∷ 1 ∷ 2 ∷ 61 ∷ [])
grants-whole_example = grants-whole 2 60 (0 ∷ 1 ∷ 2 ∷ 61 ∷ []) (omega arith)

try_acquire-retry_example :
    (2 < 60)
    × ((m : ℕ) → m < 60 → Window.try_acquire two_a_minute m ≡ (two_a_minute, err 60))
    × ((Window.try_acquire two_a_minute 60).1 ≡ ok tt)
try_acquire-retry_example =
    try_acquire-retry two_a_minute two_a_minute 2 60 (omega arith) (omega arith) blocked

abbrev spec_a : LaneSpec
spec_a = record {
  provider = codes "nim";
  base_url = codes "http://nim.test";
  key = codes "key-0";
  rpm = 1;
  protocol = open_ai;
}

abbrev spec_b : LaneSpec
spec_b = record spec_a { key = codes "key-1" }

abbrev lane_a : Lane
lane_a = record {
  provider = codes "nim";
  base_url = codes "http://nim.test";
  key = codes "key-0";
  rpm = 1;
  protocol = open_ai;
  limiter = record { limit = 1; window = 61000; hits = [] };
  cooldown_until = none;
}

abbrev lane_b : Lane
lane_b = record lane_a { key = codes "key-1" }

-- A save that puts the key behind another one.
abbrev reordered : Saved
reordered = record { before = []; after = lane_b ∷ []; specs = spec_b ∷ spec_a ∷ []; place = 1 }

abbrev two_lanes : Pool
two_lanes = record { lanes = lane_a ∷ lane_b ∷ []; window = 61000 }

abbrev swapped : Pool
swapped = record { lanes = lane_b ∷ lane_a ∷ []; window = 61000 }

-- A hash that weighs a key by its length and last digit: `key-1` outweighs `key-0`.
abbrev sum_hash : ℕ → Text → Text → ℕ
sum_hash session provider [] = 0
sum_hash session provider (c ∷ key) = c + sum_hash session provider key

pinned : affinity_lane sum_hash two_lanes 7 ≡ some 1
unfolding affinity_lane affinity_among max_by_key range_from max_from
pinned = refl

unique_weight :
    (j : ℕ)
    → In j (0 ∷ 1 ∷ [])
    → weight sum_hash 7 two_lanes.lanes j ≡ weight sum_hash 7 two_lanes.lanes 1
    → j ≡ 1
unfolding weight
unique_weight j here e = absurd (omega arith)
unique_weight j (there here) e = refl
unique_weight j (there (there m)) e = elim m [ ]

kept_candidate : (j : ℕ) → In j (1 ∷ []) → In j (0 ∷ 1 ∷ [])
kept_candidate j m = there m

pinned_among : affinity_among sum_hash two_lanes 7 (0 ∷ 1 ∷ []) ≡ some 1
unfolding affinity_among max_by_key max_from
pinned_among = refl

to_swapped : {l : Lane} → In l (lane_a ∷ lane_b ∷ []) → In l (lane_b ∷ lane_a ∷ [])
to_swapped here = there here
to_swapped (there here) = here
to_swapped (there (there m)) = elim m [ ]

from_swapped : {l : Lane} → In l (lane_b ∷ lane_a ∷ []) → In l (lane_a ∷ lane_b ∷ [])
from_swapped here = there here
from_swapped (there here) = here
from_swapped (there (there m)) = elim m [ ]

same_lanes : (l : Lane) → In l two_lanes.lanes ↔ In l swapped.lanes
same_lanes l = (to_swapped, from_swapped)

apart :
    (l : Lane) (l' : Lane)
    → In l two_lanes.lanes
    → In l' two_lanes.lanes
    → sum_hash 7 l.provider l.key ≡ sum_hash 7 l'.provider l'.key
    → l ≡ l'
apart l l' here here e = refl
apart l l' here (there here) e = absurd (omega arith)
apart l l' (there here) here e = absurd (omega arith)
apart l l' (there here) (there here) e = refl
apart l l' (there (there m)) k e = elim m [ ]
apart l l' here (there (there k)) e = elim k [ ]
apart l l' (there here) (there (there k)) e = elim k [ ]

pinned_swapped : affinity_lane sum_hash swapped 7 ≡ some 0
unfolding affinity_lane affinity_among max_by_key range_from max_from
pinned_swapped = refl
