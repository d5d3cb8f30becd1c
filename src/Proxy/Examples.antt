-- ===== src/Proxy/Examples.antt =====
-- The theorems on src/proxy.rs at concrete requests.
use llm_rate_limit_proxy.Base.{◌+◌, ◌≤◌, ◌≡◌, List, [], ◌∷◌, Text, codes}
use llm_rate_limit_proxy.Config.{Alias}
use llm_rate_limit_proxy.Proxy.Inflight.{Gate, claim, fresh, claims, guards-le-max}

abbrev fast : List Alias
fast =
    record {
      name = codes "fast";
      targets = record { provider = codes "nim"; model = codes "m" } ∷ [];
    }
    ∷ []

abbrev offers : List Text
offers = codes "nim" ∷ []

abbrev start : Gate
start = record { counter = 0; guards = 0; refusing = 0 }

guards-le-max_example :
    ((claim 1 (claim 1 start)).guards ≤ 1)
    × ((claim 1 (claim 1 start)).counter
        ≡ (claim 1 (claim 1 start)).guards + (claim 1 (claim 1 start)).refusing)
guards-le-max_example = guards-le-max 1 (claim 1 (claim 1 start)) (claims (claims fresh))
