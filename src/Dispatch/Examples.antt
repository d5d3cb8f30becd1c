-- ===== src/Dispatch/Examples.antt =====
-- The dispatcher's theorems at concrete inputs.
use llm_rate_limit_proxy.Base.{
  ℕ, ◌≡◌, refl, [], ◌∷◌, none, some, Text, codes, arith, get_elem?, any,
}
use llm_rate_limit_proxy.Config.{open_ai, anthropic}
use llm_rate_limit_proxy.Pool.Window
use llm_rate_limit_proxy.Pool.Window.{SlidingWindow, prune, prune_hits}
use llm_rate_limit_proxy.Pool.Lane
use llm_rate_limit_proxy.Pool.Lane.{Lane}
use llm_rate_limit_proxy.Pool.Lanes.{Pool}
use llm_rate_limit_proxy.Dispatch.{
  Query, Permit, passed_over, visit, scan, least, choose, settle, attempt, granted, permit_of, note,
  acquire_for, Round, least_from, hint,
}
use llm_rate_limit_proxy.Dispatch.Least.{NoHeavier}
use llm_rate_limit_proxy.Dispatch.Scan.{spent}
use llm_rate_limit_proxy.Dispatch.Grant.{IsFree}
use llm_rate_limit_proxy.Dispatch.Choice.{Served, attempt-granted, attempt-free, attempt-least}
use llm_rate_limit_proxy.Dispatch.Wait.{cooling_lanes}
use llm_rate_limit_proxy.Dispatch.Serve.{IsAnswered, acquire_for-IsAnswered}

abbrev busy_lane : Lane
busy_lane = record {
  provider = codes "nim";
  base_url = codes "http://nim.test";
  key = codes "key-0";
  rpm = 1;
  protocol = open_ai;
  limiter = record { limit = 1; window = 60; hits = 5 ∷ [] };
  cooldown_until = none;
}

abbrev idle_lane : Lane
idle_lane = record busy_lane {
  key = codes "key-1";
  limiter = record { limit = 1; window = 60; hits = [] };
}

abbrev benched_lane : Lane
benched_lane = record idle_lane { key = codes "key-2"; cooldown_until = some 40 }

abbrev zero_hash : ℕ → Text → Text → ℕ
zero_hash session provider key = 0

abbrev three_lanes : Pool
three_lanes = record { lanes = busy_lane ∷ idle_lane ∷ benched_lane ∷ []; window = 60 }

abbrev anything : Query
anything = record { provider = none; exclude = []; session = none; protocol = none }

abbrev claude : Query
claude = record { provider = none; exclude = []; session = none; protocol = some anthropic }

abbrev after_grant : Pool
after_grant = record {
  lanes =
      busy_lane
      ∷ record idle_lane { limiter = record { limit = 1; window = 60; hits = 10 ∷ [] } }
      ∷ benched_lane
      ∷ [];
  window = 60;
}

served : attempt zero_hash anything 10 three_lanes ≡ (after_grant, granted (permit_of 1 idle_lane))
unfolding attempt scan visit passed_over any Lane.cooldown_ends Lane.load Window.load prune
    prune_hits Lane.try_acquire Window.try_acquire note choose hint least least_from settle
served = refl

attempt-granted_example : Served anything 10 three_lanes after_grant (permit_of 1 idle_lane)
attempt-granted_example = attempt-granted zero_hash anything 10 three_lanes (omega arith) served

idle-IsFree : IsFree anything 10 1 idle_lane
unfolding passed_over any Lane.cooldown_ends prune_hits
idle-IsFree = record { matching = refl; awake = refl; budget = omega arith }

attempt-free_example :
    (permit : Permit) × ((attempt zero_hash anything 10 three_lanes).1 ≡ granted permit)
attempt-free_example =
    attempt-free zero_hash anything 10 three_lanes (omega arith) 1 refl idle-IsFree

attempt-least_example :
    (l : Lane) × (get_elem? three_lanes.lanes 1 ≡ some l)
    × ((k : ℕ) (m : Lane)
        → get_elem? three_lanes.lanes k ≡ some m
        → IsFree anything 10 k m
        → NoHeavier (spent 10 l, 1) (spent 10 m, k))
attempt-least_example =
    attempt-least zero_hash anything 10 three_lanes (omega arith) {permit = permit_of 1 idle_lane}
      refl (λ i. (served i).1)

-- A pool whose one lane is benched until 40 and then still saturated until 65.
abbrev sick_lane : Lane
sick_lane = record busy_lane { cooldown_until = some 40 }

abbrev sick_pool : Pool
sick_pool = record { lanes = sick_lane ∷ []; window = 60 }

abbrev round_at : ℕ → Round
round_at now = record { now = now; meanwhile = λ p. p }

acquire_for-IsAnswered_example :
    IsAnswered
      (acquire_for zero_hash anything (round_at 10 ∷ round_at 40 ∷ round_at 65 ∷ []) sick_pool).1
unfolding attempt scan visit passed_over any Lane.cooldown_ends Lane.load Window.load prune
    prune_hits Lane.try_acquire Window.try_acquire note choose hint least least_from settle
    cooling_lanes
acquire_for-IsAnswered_example =
    acquire_for-IsAnswered zero_hash anything (round_at 10) (round_at 40 ∷ round_at 65 ∷ [])
      sick_pool (record { sound = refl; positive = omega arith; within = omega arith }, tt)
      (refl, (omega arith, omega arith), (refl, (omega arith, omega arith), (refl, tt, tt)))
      (omega arith)
