-- ===== src/App.antt =====
-- src/lib.rs: the allow list in front of every route, and what the dashboard's handlers ask for. Times are seconds
-- of the Unix clock.
pub mod Front
mod Examples
use llm_rate_limit_proxy.Base.{
  ℕ, zero, suc, ◌+◌, ◌*◌, ◌/◌, ◌%◌, ◌-◌, ◌^◌, ◌≤◌, ◌<◌, ◌≡◌, ◌≢◌, ◌⊎◌, inl, inr, refl, sym, ap,
  subst, ◌∙◌, arith, Bool, true, false, not, List, [], ◌∷◌, ◌++◌, Option, none, some, Text, codes,
  ltb, leb, ◌==◌, if◌then◌else◌, ◌&&◌, ◌||◌, max, min, map, filter_map, length, retain, take,
  is_empty, unwrap_or, and_then, or_option, map_or, is_some_and, any, all, find, count_if, same,
  same_iff, same_refl, Bool-cases, Option-cases, All, In, here, there, Result, ok, err, get_elem?,
  set, strip_prefix, drop, replicate, on_if, on_option, append-nil, append_assoc, In-append_cases,
  All-imp,
}
use llm_rate_limit_proxy.Base.Assoc.{get, insert, contains_key}
use llm_rate_limit_proxy.Config.Urls.{trim}
use llm_rate_limit_proxy.History
use llm_rate_limit_proxy.History.{History, Snapshot}
use llm_rate_limit_proxy.Ledger.{Usage, Ledger, absorb}
use llm_rate_limit_proxy.Metrics.{Metrics, record_event}
use llm_rate_limit_proxy.Metrics.Stats.{ModelStat, stats}
use llm_rate_limit_proxy.Net.{IpAddr, Rule, parse_rule, permitted, parse_below}

-- The process's counters in the shape of the ledger.
unfoldable pub per_model_usage : Metrics → List (Text × Usage)
per_model_usage m =
    map
      (λ (s : ModelStat). (
        s.model,
        record {
          requests = s.requests;
          prompt_tokens = s.prompt_tokens;
          completion_tokens = s.completion_tokens;
        },
      ))
      (stats m).models

-- Before the savings are read. `saves` tells whether the file could be written.
unfoldable pub absorb_usage : Bool → Metrics → Ledger → Ledger
unfolding per_model_usage
absorb_usage saves m ledger = absorb saves (per_model_usage m) ledger

-- A number of the query, or the default.
unfoldable pub query_number : List (Text × Text) → Text → ℕ → ℕ
query_number q key default = unwrap_or (and_then (get key q) (λ v. parse_below (2 ^ 64) v)) default

-- The ends of the range: a day back from now where the query does not say.
unfoldable pub history_range : ℕ → List (Text × Text) → ℕ × ℕ
unfolding query_number
history_range now q = (query_number q (codes "from") (now - 86400), query_number q (codes "to") now)

unfoldable pub api_history : ℕ → List (Text × Text) → History → List Snapshot
unfolding history_range
api_history now q h = let ends = history_range now q in History.range ends.0 ends.1 500 h

-- Whether a caller is let through. `parse_addr` is the standard library's.
module _ (parse_addr : Text → Option IpAddr) where
  unfoldable pub rules_of : List Text → List Rule
  rules_of allow_from = filter_map (parse_rule parse_addr) allow_from

  unfoldable pub source_allowlist : Text → List Text → IpAddr → Metrics → Metrics × Bool
  unfolding rules_of
  source_allowlist path allow_from peer m =
      if same path (codes "/health")
      then (m, true)
      else (if permitted (rules_of allow_from) peer
          then (m, true)
          else (record_event (codes "blocked_source") m, false))
