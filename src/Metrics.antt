-- ===== src/Metrics.antt =====
-- src/metrics.rs: the counters, the summaries and the gauges; Requests has the counters keyed by
-- more than one label, Stats what the dashboard reads. Sums are natural numbers,
-- where the code's 64 bits wrap.
pub mod Requests
pub mod Stats
mod Capped
mod Examples
use llm_rate_limit_proxy.Base.{
  ℕ, zero, suc, ◌+◌, ◌*◌, ◌/◌, ◌-◌, Bool, true, false, List, [], ◌∷◌, Option, none, some, Text,
  codes, ltb, leb, ◌==◌, if◌then◌else◌, ◌&&◌, ◌||◌, max, length, retain, take, is_empty, unwrap_or,
}
use llm_rate_limit_proxy.Base.Assoc.{get, insert, contains_key}

abbrev pub max_series : ℕ
max_series = 500

-- ASCII letters and digits, and `.`, `_`, `-`, `/` and `:`.
unfoldable pub is_safe : ℕ → Bool
is_safe c =
    ((leb 97 c && leb c 122) || (leb 65 c && leb c 90))
    || ((leb 48 c && leb c 57)
        || ((c == 46) || ((c == 95) || ((c == 45) || ((c == 47) || (c == 58))))))

unfoldable pub sanitize : Text → Text
unfolding is_safe
sanitize s = let out = take 64 (retain is_safe s) in if is_empty out then codes "unknown" else out

unfoldable pub capped {ℓ} : {V : Type ℓ} → List (Text × V) → Text → Text
capped m label = if contains_key label m || ltb (length m) max_series then label else codes "other"

pub record Summary : Type 0 where
  pub sum : ℕ
  pub count : ℕ
  pub max_seen : ℕ

abbrev pub no_summary : Summary
no_summary = record { sum = 0; count = 0; max_seen = 0 }

unfoldable pub add : ℕ → Summary → Summary
add v s = record { sum = s.sum + v; count = s.count + 1; max_seen = max s.max_seen v }

-- `checked_div`, or 0.
unfoldable pub avg : Summary → ℕ
avg s = if s.count == 0 then 0 else s.sum / s.count

-- The four summaries of a request's shape, in the order of the array.
pub record Shape : Type 0 where
  pub messages : Summary
  pub tools : Summary
  pub max_tokens : Summary
  pub temperature : Summary

abbrev pub no_shape : Shape
no_shape = record {
  messages = no_summary;
  tools = no_summary;
  max_tokens = no_summary;
  temperature = no_summary;
}

-- The key of one series of requests.
pub record Series : Type 0 where
  pub client : Text
  pub model : Text
  pub status : Text

pub record Metrics : Type 0 where
  pub requests : List (Series × ℕ)
  pub latency : List (Text × (ℕ × ℕ))
  pub tokens : List (Text × (ℕ × ℕ))
  pub lanes : List (Text × ℕ)
  pub ttft_ms : List (Text × Summary)
  pub tok_per_sec : List (Text × Summary)
  pub queue_wait_ms : Summary
  pub finish : List ((Text × Text) × ℕ)
  pub extras : List (Text × (ℕ × ℕ))
  pub shape : List (Text × Shape)
  pub events : List (Text × ℕ)
  pub streamed : ℕ
  pub buffered : ℕ
  pub active : ℕ

-- `*entry(key).or_insert(default)` changed by `f`.
unfoldable pub upsert {ℓ} : {V : Type ℓ} → Text → V → (V → V) → List (Text × V) → List (Text × V)
upsert key default f m = insert key (f (unwrap_or (get key m) default)) m

unfoldable pub bump {ℓ} : {V : Type ℓ} → Text → V → (V → V) → List (Text × V) → List (Text × V)
unfolding upsert capped
bump label default f m = upsert (capped m (sanitize label)) default f m

abbrev pub plus_pair : ℕ → ℕ → ℕ × ℕ → ℕ × ℕ
plus_pair a b p = (p.0 + a, p.1 + b)

unfoldable pub record_latency : Text → ℕ → Metrics → Metrics
unfolding bump
record_latency model ms m = record m { latency = bump model (0, 0) (plus_pair ms 1) m.latency }

unfoldable pub record_tokens : Text → ℕ → ℕ → Metrics → Metrics
unfolding bump
record_tokens model prompt completion m = record m {
  tokens = bump model (0, 0) (plus_pair prompt completion) m.tokens;
}

-- Providers come from the configuration, so this map has no cap.
unfoldable pub record_lane : Text → Metrics → Metrics
unfolding upsert
record_lane provider m = record m { lanes = upsert (sanitize provider) 0 suc m.lanes }

unfoldable pub record_ttft : Text → ℕ → Metrics → Metrics
unfolding bump
record_ttft model ms m = record m { ttft_ms = bump model no_summary (add ms) m.ttft_ms }

unfoldable pub record_speed : Text → ℕ → ℕ → Metrics → Metrics
unfolding bump
record_speed model completion_tokens gen_ms m =
    if (completion_tokens == 0) || (gen_ms == 0) then m else record m {
      tok_per_sec = bump model no_summary (add (completion_tokens * 1000 / gen_ms)) m.tok_per_sec;
    }

unfoldable pub record_queue_wait : ℕ → Metrics → Metrics
record_queue_wait ms m = record m { queue_wait_ms = add ms m.queue_wait_ms }

unfoldable pub record_extras : Text → ℕ → ℕ → Metrics → Metrics
unfolding bump
record_extras model tool_calls reasoning_tokens m =
    if (tool_calls == 0) && (reasoning_tokens == 0)
    then m
    else record m { extras = bump model (0, 0) (plus_pair tool_calls reasoning_tokens) m.extras }

unfoldable pub add_shape : ℕ → ℕ → ℕ → ℕ → Shape → Shape
unfolding add
add_shape messages tools max_tokens temperature s = record {
  messages = add messages s.messages;
  tools = add tools s.tools;
  max_tokens = add max_tokens s.max_tokens;
  temperature = add temperature s.temperature;
}

unfoldable pub record_shape : Text → ℕ → ℕ → ℕ → ℕ → Metrics → Metrics
unfolding bump
record_shape client messages tools max_tokens temperature m = record m {
  shape = bump client no_shape (add_shape messages tools max_tokens temperature) m.shape;
}

unfoldable pub record_event : Text → Metrics → Metrics
unfolding bump
record_event kind m = record m { events = bump kind 0 suc m.events }

unfoldable pub record_stream_mix : Bool → Metrics → Metrics
record_stream_mix true m = record m { streamed = m.streamed + 1 }
record_stream_mix false m = record m { buffered = m.buffered + 1 }

unfoldable pub track_active : Metrics → Metrics
track_active m = record m { active = m.active + 1 }

-- An `ActiveGuard` is dropped.
unfoldable pub drop_active : Metrics → Metrics
drop_active m = record m { active = m.active - 1 }
