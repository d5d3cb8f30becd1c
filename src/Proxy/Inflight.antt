-- ===== src/Proxy/Inflight.antt =====
-- `try_admit` and `InflightGuard` of src/proxy.rs, under any interleaving of their atomic operations.
use llm_rate_limit_proxy.Base.{ℕ, ◌+◌, ◌-◌, ◌≤◌, ◌<◌, ◌≡◌, refl, arith, leb, if◌then◌else◌}

-- `counter`, the guards that are alive, and the callers between the refusing `fetch_add` and its
-- `fetch_sub`.
pub record Gate : Type 0 where
  pub counter : ℕ
  pub guards : ℕ
  pub refusing : ℕ

-- `fetch_add(1) >= max`: the test reads the counter as it was.
unfoldable pub claim : ℕ → Gate → Gate
claim max g =
    if leb max g.counter
    then record g { counter = g.counter + 1; refusing = g.refusing + 1 }
    else record g { counter = g.counter + 1; guards = g.guards + 1 }

unfoldable pub hand_back : Gate → Gate
hand_back g = record g { counter = g.counter - 1; refusing = g.refusing - 1 }

unfoldable pub drop_guard : Gate → Gate
drop_guard g = record g { counter = g.counter - 1; guards = g.guards - 1 }

-- The gates that any number of callers reach under one `max`.
pub data Reached (max : ℕ) : Gate → Type 0 where
  fresh : Reached max (record { counter = 0; guards = 0; refusing = 0 })
  claims : {g : Gate} → Reached max g → Reached max (claim max g)
  hands_back : {g : Gate} → 0 < g.refusing → Reached max g → Reached max (hand_back g)
  drops : {g : Gate} → 0 < g.guards → Reached max g → Reached max (drop_guard g)

-- However the callers interleave, no more than `max` guards are alive, and the counter is their number and
-- that of the callers who are about to hand back.
pub guards-le-max :
    (max : ℕ) (g : Gate) → Reached max g → (g.guards ≤ max) × (g.counter ≡ g.guards + g.refusing)
unfolding claim hand_back drop_guard
guards-le-max max _ fresh = (omega arith, refl)
guards-le-max max _ (claims {g} r) =
    let (a, b) = guards-le-max max g r in (ground arith, ground arith)
guards-le-max max _ (hands_back {g} pos r) = let (a, b) = guards-le-max max g r in (a, omega arith)
guards-le-max max _ (drops {g} pos r) =
    let (a, b) = guards-le-max max g r in (omega arith, omega arith)
