-- ===== src/History/Examples.antt =====
-- The theorems on src/history.rs at a concrete series.
use llm_rate_limit_proxy.Base.{true, [], ◌∷◌}
use llm_rate_limit_proxy.History.{Snapshot, History}

abbrev first : Snapshot
first = record { t = 100; total = 1 }

abbrev second : Snapshot
second = record { t = 400; total = 5 }

abbrev series : History
series = record {
  has_path = true;
  retention_secs = 300;
  snapshots = first ∷ second ∷ [];
  file = [];
}
