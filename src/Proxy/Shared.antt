-- ===== src/Proxy/Shared.antt =====
-- The shared state that a request works on in src/proxy.rs, and the answers that it can get.
use llm_rate_limit_proxy.Base.{ℕ, Option, Text, codes}
use llm_rate_limit_proxy.Governor.{Governor}
use llm_rate_limit_proxy.Pool.Lanes.{Pool}
use llm_rate_limit_proxy.Metrics.{Metrics}
use llm_rate_limit_proxy.Models.{Limits}

-- Of `AppState`, the fields that the request path reads or writes.
pub record AppState : Type 0 where
  pub governor : Governor
  pub pool : Pool
  pub metrics : Metrics
  pub context_limits : Limits

-- A response of a provider: its status, the two headers that are read, and its body, `none` for one that never ends,
-- and empty for one that breaks off.
pub record Upstream : Type 0 where
  pub status : ℕ
  pub content_type : Option Text
  pub retry_after : Option Text
  pub payload : Option Text

-- `passed` hands a provider's response on; `refused` is `err`, with its status and its code.
pub data Reply : Type 0 where
  passed : ℕ → Option Text → Text → Reply
  refused : ℕ → Text → Reply

abbrev pub deadline_exceeded : Reply
deadline_exceeded = refused 504 (codes "deadline_exceeded")

abbrev pub upstream_error : Reply
upstream_error = refused 502 (codes "upstream_error")

abbrev pub no_capacity : Reply
no_capacity = refused 503 (codes "no_capacity")

abbrev pub empty_completion : Reply
empty_completion = refused 400 (codes "empty_completion")

abbrev pub set_metrics : (Metrics → Metrics) → AppState → AppState
set_metrics f s = record s { metrics = f s.metrics }
