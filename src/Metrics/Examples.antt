-- ===== src/Metrics/Examples.antt =====
-- The theorems on src/metrics.rs at concrete labels.
use llm_rate_limit_proxy.Base.{◌≡◌, [], ◌∷◌, codes}
use llm_rate_limit_proxy.Metrics.{Metrics}
use llm_rate_limit_proxy.Metrics.Requests.{total}
use llm_rate_limit_proxy.Metrics.Stats.{stats, model_sum, row_sum, stats-consistent}

abbrev seen : Metrics
seen = record {
  requests =
      (record { client = codes "a"; model = codes "m"; status = codes "200" }, 2)
      ∷ (record { client = codes "b"; model = codes "m"; status = codes "429" }, 1)
      ∷ [];
  latency = [];
  tokens = [];
  lanes = [];
  ttft_ms = [];
  tok_per_sec = [];
  queue_wait_ms = record { sum = 0; count = 0; max_seen = 0 };
  finish = [];
  extras = [];
  shape = [];
  events = [];
  streamed = 0;
  buffered = 0;
  active = 0;
}

stats-consistent_example :
    ((stats seen).total ≡ total seen)
    × (model_sum (stats seen).models ≡ total seen)
    × (row_sum (stats seen).clients ≡ total seen)
    × (row_sum (stats seen).statuses ≡ total seen)
stats-consistent_example = stats-consistent seen
