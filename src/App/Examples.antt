-- ===== src/App/Examples.antt =====
-- The theorem on the allow list at one rule.
use llm_rate_limit_proxy.Base.{
  ◌≡◌, ◌⊎◌, true, List, [], ◌∷◌, Option, none, some, Text, codes, if◌then◌else◌, same, In,
}
use llm_rate_limit_proxy.Base.{◌↔◌}
use llm_rate_limit_proxy.Metrics.{Metrics}
use llm_rate_limit_proxy.Net.{IpAddr, v4, Rule, is_loopback, mapped_loopback}
use llm_rate_limit_proxy.Net.Cover.{IsCovered}
use llm_rate_limit_proxy.App.{rules_of, source_allowlist}
use llm_rate_limit_proxy.App.Front.{source_allowlist-covers}

abbrev one_addr : Text → Option IpAddr
one_addr s = if same s (codes "10.0.0.0") then some (v4 167772160) else none

abbrev no_metrics : Metrics
no_metrics = record {
  requests = [];
  latency = [];
  tokens = [];
  lanes = [];
  ttft_ms = [];
  tok_per_sec = [];
  queue_wait_ms = record { sum = 0; count = 0; max_seen = 0 };
  finish = [];
  extras = [];
  shape = [];
  events = [];
  streamed = 0;
  buffered = 0;
  active = 0;
}

abbrev listed : List Text
listed = codes "10.0.0.0/8" ∷ []

source_allowlist-covers_example :
    ((source_allowlist one_addr (codes "/") listed (v4 167772165) no_metrics).1 ≡ true) ↔ (
      (codes "/" ≡ codes "/health")
      ⊎ (((rules_of one_addr listed ≡ []) ⊎ (is_loopback (v4 167772165) ≡ true))
          ⊎ ((mapped_loopback (v4 167772165) ≡ true)
              ⊎ ((r : Rule) × In r (rules_of one_addr listed) × IsCovered r (v4 167772165)))))
source_allowlist-covers_example =
    source_allowlist-covers one_addr (codes "/") listed (v4 167772165) no_metrics
