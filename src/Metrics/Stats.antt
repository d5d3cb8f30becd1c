-- ===== src/Metrics/Stats.antt =====
-- `stats` of src/metrics.rs: what the dashboard reads. The order of the rows is that of the maps.
use llm_rate_limit_proxy.Base.{
  ℕ, ◌+◌, ◌/◌, ◌≡◌, refl, ◌∙◌, arith, List, [], ◌∷◌, Text, codes, ◌==◌, if◌then◌else◌, map,
  unwrap_or, map_or, find,
}
use llm_rate_limit_proxy.Base.Assoc.{get, insert}
use llm_rate_limit_proxy.Metrics.{Series, Metrics, Summary, Shape, avg, upsert, insert, get}
use llm_rate_limit_proxy.Metrics.Requests.{same_pair, total_of, total}

pub record EventStat : Type 0 where
  pub kind : Text
  pub count : ℕ

pub record ShapeStat : Type 0 where
  pub client : Text
  pub avg_messages : ℕ
  pub avg_tools : ℕ
  pub avg_max_tokens : ℕ
  pub avg_temperature_x100 : ℕ

pub record ModelStat : Type 0 where
  pub model : Text
  pub requests : ℕ
  pub avg_latency_ms : ℕ
  pub prompt_tokens : ℕ
  pub completion_tokens : ℕ
  pub avg_ttft_ms : ℕ
  pub max_ttft_ms : ℕ
  pub avg_tokens_per_sec : ℕ
  pub truncated : ℕ
  pub tool_calls : ℕ
  pub reasoning_tokens : ℕ

-- Also the rows of clients, statuses and lanes.
pub record Row : Type 0 where
  pub name : Text
  pub requests : ℕ

pub record Stats : Type 0 where
  pub total : ℕ
  pub models : List ModelStat
  pub clients : List Row
  pub statuses : List Row
  pub lanes : List Row
  pub queue_wait : Summary
  pub active : ℕ
  pub streamed : ℕ
  pub buffered : ℕ
  pub events : List EventStat
  pub shape : List ShapeStat

-- The sums of the counts by one field of the key.
unfoldable pub sums_by : (Series → Text) → List (Series × ℕ) → List (Text × ℕ) → List (Text × ℕ)
unfolding upsert
sums_by field [] acc = acc
sums_by field (e ∷ es) acc = sums_by field es (upsert (field e.0) 0 (λ n. n + e.1) acc)

-- `finish.get(key)`, where none counts for 0 in the sum.
unfoldable pub finished : Text → Text → List ((Text × Text) × ℕ) → ℕ
unfolding same_pair
finished model reason m =
    map_or (find (λ (e : (Text × Text) × ℕ). same_pair e.0 (model, reason)) m) 0 (λ e. e.1)

unfoldable pub model_stat : Metrics → Text × ℕ → ModelStat
unfolding finished avg
model_stat m row =
    let lat = unwrap_or (get row.0 m.latency) (0, 0) in
    let tokens = unwrap_or (get row.0 m.tokens) (0, 0) in
    let none_seen : Summary = record { sum = 0; count = 0; max_seen = 0 } in
    let ttft = unwrap_or (get row.0 m.ttft_ms) none_seen in
    let speed = unwrap_or (get row.0 m.tok_per_sec) none_seen in
    let extras = unwrap_or (get row.0 m.extras) (0, 0) in
    record {
      model = row.0;
      requests = row.1;
      avg_latency_ms = if lat.1 == 0 then 0 else lat.0 / lat.1;
      prompt_tokens = tokens.0;
      completion_tokens = tokens.1;
      avg_ttft_ms = avg ttft;
      max_ttft_ms = ttft.max_seen;
      avg_tokens_per_sec = avg speed;
      truncated =
          finished row.0 (codes "length") m.finish + finished row.0 (codes "max_tokens") m.finish;
      tool_calls = extras.0;
      reasoning_tokens = extras.1;
    }

unfoldable pub row_of : Text × ℕ → Row
row_of e = record { name = e.0; requests = e.1 }

unfoldable pub shape_stat : Text × Shape → ShapeStat
unfolding avg
shape_stat e = record {
  client = e.0;
  avg_messages = avg e.1.messages;
  avg_tools = avg e.1.tools;
  avg_max_tokens = avg e.1.max_tokens;
  avg_temperature_x100 = avg e.1.temperature;
}

unfoldable pub stats : Metrics → Stats
unfolding sums_by model_stat row_of shape_stat total_of
stats m = record {
  total = total_of m.requests;
  models = map (model_stat m) (sums_by (λ (k : Series). k.model) m.requests []);
  clients = map row_of (sums_by (λ (k : Series). k.client) m.requests []);
  statuses = map row_of (sums_by (λ (k : Series). k.status) m.requests []);
  lanes = map row_of m.lanes;
  queue_wait = m.queue_wait_ms;
  active = m.active;
  streamed = m.streamed;
  buffered = m.buffered;
  events = map (λ (e : Text × ℕ). record { kind = e.0; count = e.1 }) m.events;
  shape = map shape_stat m.shape;
}

abbrev pub row_sum : List Row → ℕ
row_sum [] = 0
row_sum (r ∷ rs) = r.requests + row_sum rs

abbrev pub model_sum : List ModelStat → ℕ
model_sum [] = 0
model_sum (r ∷ rs) = r.requests + model_sum rs

total_of-upsert :
    (k : Text) (n : ℕ) (m : List (Text × ℕ)) → total_of (upsert k 0 (λ x. x + n) m) ≡ total_of m + n
unfolding total_of upsert insert get
total_of-upsert k n [] = omega arith
total_of-upsert k n ((j, v) ∷ m) = ground (arith, total_of-upsert k n m)

total_of-sums_by :
    (field : Series → Text) (es : List (Series × ℕ)) (acc : List (Text × ℕ))
    → total_of (sums_by field es acc) ≡ total_of acc + total_of es
unfolding sums_by total_of
total_of-sums_by field [] acc = omega arith
total_of-sums_by field (e ∷ es) acc = omega (
  arith,
  total_of-sums_by field es (upsert (field e.0) 0 (λ n. n + e.1) acc),
  total_of-upsert (field e.0) e.1 acc,
)

row_sum-map : (m : List (Text × ℕ)) → row_sum (map row_of m) ≡ total_of m
unfolding total_of row_of
row_sum-map [] = refl
row_sum-map (e ∷ m) = omega (arith, row_sum-map m)

model_sum-map : (s : Metrics) (m : List (Text × ℕ)) → model_sum (map (model_stat s) m) ≡ total_of m
unfolding total_of model_stat
model_sum-map s [] = refl
model_sum-map s (e ∷ m) = omega (arith, model_sum-map s m)

-- The total that the dashboard shows is the count of recorded requests, and each breakdown, by model, by
-- client and by status, adds up to it.
pub stats-consistent :
    (m : Metrics)
    → ((stats m).total ≡ total m)
      × (model_sum (stats m).models ≡ total m)
      × (row_sum (stats m).clients ≡ total m)
      × (row_sum (stats m).statuses ≡ total m)
unfolding stats total
stats-consistent m = (
  refl,
  model_sum-map m (sums_by (λ (k : Series). k.model) m.requests [])
      ∙ by_field (λ (k : Series). k.model),
  row_sum-map (sums_by (λ (k : Series). k.client) m.requests [])
      ∙ by_field (λ (k : Series). k.client),
  row_sum-map (sums_by (λ (k : Series). k.status) m.requests [])
      ∙ by_field (λ (k : Series). k.status),
)
  where
    by_field : (f : Series → Text) → total_of (sums_by f m.requests []) ≡ total_of m.requests
    by_field f = omega (arith, total_of-sums_by f m.requests [])
