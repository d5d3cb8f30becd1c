-- ===== src/Proxy/Stream/Examples.antt =====
-- The theorems on the event stream at two lanes, the first of which rejects `stream_options`.
use llm_rate_limit_proxy.Base.{ℕ, ◌+◌, ◌≤◌, true, false, [], ◌∷◌, none, some, codes, length}
use llm_rate_limit_proxy.Config.{open_ai}
use llm_rate_limit_proxy.Json.{Json}
use llm_rate_limit_proxy.Pool.Lane.{Lane}
use llm_rate_limit_proxy.Proxy.Plan.{anywhere_step}
use llm_rate_limit_proxy.Proxy.Shared.{AppState, Upstream}
use llm_rate_limit_proxy.Proxy.Walk.{Request, answered}
use llm_rate_limit_proxy.Proxy.Stream.{World, Turn, stream_proxy}
use llm_rate_limit_proxy.Proxy.Bodies.{Rewriting}
use llm_rate_limit_proxy.Proxy.Stream.Body.{chunk, closed}
use llm_rate_limit_proxy.Proxy.Stream.Plain.{stream_proxy-within}

abbrev opaque_json : Json (Unit {0})
opaque_json = record {
  parse = λ b. none;
  field = λ key v. none;
  as_array = λ v. none;
  as_str = λ v. none;
  as_u64 = λ v. none;
  as_bool = λ v. none;
}

abbrev plainly : Rewriting (Unit {0})
plainly = record {
  hash = λ model messages. 0;
  to_text = λ v. [];
  temp_x100 = λ v. 0;
  include_usage = λ v. none;
  with_model = λ model v. none;
}

abbrev lane : Lane
lane = record {
  provider = codes "a";
  base_url = codes "u";
  key = codes "k";
  rpm = 1;
  protocol = open_ai;
  limiter = record { limit = 1; window = 60; hits = [] };
  cooldown_until = none;
}

abbrev app : AppState
app = record {
  governor = [];
  pool = record { lanes = lane ∷ []; window = 60 };
  metrics = record {
    requests = [];
    latency = [];
    tokens = [];
    lanes = [];
    ttft_ms = [];
    tok_per_sec = [];
    queue_wait_ms = record { sum = 0; count = 0; max_seen = 0 };
    finish = [];
    extras = [];
    shape = [];
    events = [];
    streamed = 0;
    buffered = 0;
    active = 0;
  };
  context_limits = [];
}

abbrev start : World
start = record { app = app; no_inject = []; sent = []; frames = [] }

abbrev request : Request
request = record {
  client = codes "c";
  model_label = codes "m";
  session = none;
  wire = open_ai;
  deadline = some 90;
}

abbrev answer : ℕ → Upstream
answer status = record {
  status = status;
  content_type = none;
  retry_after = none;
  payload = some [];
}

abbrev turn : Turn
turn = record {
  polls = record { meanwhile = λ g. g; now = 10; checked = 10; alive = true } ∷ [];
  poll_beats = 0;
  rounds = record { now = 10; meanwhile = λ p. p } ∷ [];
  gone = false;
  beats = 0;
  queued_ms = 0;
  others = λ s. s;
  results = some (answered (answer 400)) ∷ some (answered (answer 200)) ∷ [];
  benched_at = 11;
  rebuffed_at = 11;
  events = chunk (codes "hi") 3 true ∷ closed 5 ∷ [];
}

stream_proxy-within_example :
    length
      (stream_proxy opaque_json plainly
        (λ b. b)
        (λ session provider key. 0)
        request
        true
        (codes "with")
        (some (codes "plain"))
        (anywhere_step ∷ [])
        (turn ∷ [])
        start).0.sent
    ≤ 0 + 1 + 1
stream_proxy-within_example =
    stream_proxy-within opaque_json plainly (λ b. b) (λ session provider key. 0) request true
      (codes "with") (some (codes "plain")) (anywhere_step ∷ []) (turn ∷ []) start
