-- ===== src/Proxy/Walk/Examples.antt =====
-- The theorems on the buffered walk at two lanes, the first of which answers 429.
use llm_rate_limit_proxy.Base.{
  ℕ, ◌≡◌, refl, arith, true, false, List, [], ◌∷◌, Option, none, some, Text, codes, any,
}
use llm_rate_limit_proxy.Base.Assoc.{get}
use llm_rate_limit_proxy.Json.{Json}
use llm_rate_limit_proxy.Dispatch
use llm_rate_limit_proxy.Dispatch.{Query, Permit, Answer, done, acquire_for}
use llm_rate_limit_proxy.Proxy.Plan.{PlanStep}
use llm_rate_limit_proxy.Proxy.Path.{is_retryable}
use llm_rate_limit_proxy.Proxy.Admission.{Poll, admit_model}
use llm_rate_limit_proxy.Proxy.Relay.{relay, relay_body}
use llm_rate_limit_proxy.Proxy.Shared.{Upstream, Reply, passed}
use llm_rate_limit_proxy.Proxy.Walk.{Request, answered, Turn, World, walk}
use llm_rate_limit_proxy.Config.{open_ai, same_protocol}
use llm_rate_limit_proxy.Governor
use llm_rate_limit_proxy.Governor.{inflight}
use llm_rate_limit_proxy.Governor.State.{try_enter}
use llm_rate_limit_proxy.Pool.Lane
use llm_rate_limit_proxy.Pool.Lane.{Lane}
use llm_rate_limit_proxy.Pool.Window
use llm_rate_limit_proxy.Pool.Window.{prune_hits}
use llm_rate_limit_proxy.Metrics.{Metrics}
use llm_rate_limit_proxy.Metrics.Requests.{total}
use llm_rate_limit_proxy.Proxy.Plan.{anywhere_step}
use llm_rate_limit_proxy.Proxy.Walk.Tried.{lanes}
use llm_rate_limit_proxy.Proxy.Walk.Counts.{IsCounted, walk-total}
use llm_rate_limit_proxy.Proxy.Walk.Permits.{inflight-walk}
use llm_rate_limit_proxy.Proxy.Walk.Answers.{walk-answers}
use llm_rate_limit_proxy.Proxy.Walk.Retries.{walk-retries}

-- No body is JSON.
abbrev opaque_json : Json (Unit {0})
opaque_json = record {
  parse = λ b. none;
  field = λ key v. none;
  as_array = λ v. none;
  as_str = λ v. none;
  as_u64 = λ v. none;
  as_bool = λ v. none;
}

abbrev any_utf8 : Text → Option Text
any_utf8 b = some b

abbrev zero_hash : ℕ → Text → Text → ℕ
zero_hash session provider key = 0

abbrev first_lane : Lane
first_lane = record {
  provider = codes "a";
  base_url = codes "u";
  key = codes "k";
  rpm = 1;
  protocol = open_ai;
  limiter = record { limit = 1; window = 60; hits = [] };
  cooldown_until = none;
}

abbrev second_lane : Lane
second_lane = record first_lane { key = codes "l" }

abbrev no_metrics : Metrics
no_metrics = record {
  requests = [];
  latency = [];
  tokens = [];
  lanes = [];
  ttft_ms = [];
  tok_per_sec = [];
  queue_wait_ms = record { sum = 0; count = 0; max_seen = 0 };
  finish = [];
  extras = [];
  shape = [];
  events = [];
  streamed = 0;
  buffered = 0;
  active = 0;
}

abbrev start : World
start = record {
  app = record {
    governor = [];
    pool = record { lanes = first_lane ∷ second_lane ∷ []; window = 60 };
    metrics = no_metrics;
    context_limits = [];
  };
  sent = [];
}

abbrev request : Request
request = record {
  client = codes "c";
  model_label = codes "m";
  session = none;
  wire = open_ai;
  deadline = some 90;
}

abbrev answer : ℕ → Upstream
answer status = record {
  status = status;
  content_type = none;
  retry_after = none;
  payload = some [];
}

abbrev poll : Poll
poll = record { meanwhile = λ g. g; now = 10; checked = 10; alive = true }

abbrev turn : ℕ → Turn
turn status = record {
  polls = poll ∷ [];
  rounds = record { now = 10; meanwhile = λ p. p } ∷ [];
  queued_ms = 0;
  others = λ s. s;
  sent = some (answered (answer status));
  benched_at = 11;
  rebuffed_at = 11;
  upstream_ms = 1;
  gen_ms = 1;
}

abbrev turns : List Turn
turns = turn 429 ∷ turn 200 ∷ []

abbrev plan : List PlanStep
plan = anywhere_step ∷ anywhere_step ∷ []

abbrev walked : World × Option Reply
walked = walk opaque_json any_utf8 zero_hash request plan turns [] start

walk-total_example : IsCounted walked.1 (total start.app.metrics) (total walked.0.app.metrics)
walk-total_example =
    walk-total opaque_json any_utf8 zero_hash request plan turns [] start
      (λ s. refl, (λ s. refl, tt))

walk-answers_example : (r : Reply) × (walked.1 ≡ some r)
walk-answers_example =
    walk-answers opaque_json any_utf8 zero_hash request plan turns [] start 90 refl
      ((omega arith, ([], refl)), ((omega arith, ([], refl)), tt)) (omega arith)

abbrev quick : World × Option Reply
quick = walk opaque_json any_utf8 zero_hash request plan (turn 200 ∷ []) [] start

-- The first lane answers.
quick_reply : quick.1 ≡ some (passed 200 none [])
unfolding walk admit_model Governor.admit try_enter get acquire_for Dispatch.attempt Dispatch.choose
    Dispatch.hint Dispatch.least Dispatch.least_from Dispatch.scan Dispatch.note Dispatch.visit
    Dispatch.passed_over same_protocol any Lane.cooldown_ends Lane.load Lane.try_acquire Window.load
    Window.try_acquire Window.prune prune_hits Dispatch.settle is_retryable relay relay_body
quick_reply = refl

inflight-walk_example : inflight (codes "m") quick.0.app.governor ≡ inflight (codes "m") []
inflight-walk_example =
    inflight-walk opaque_json any_utf8 zero_hash (codes "m") request plan (turn 200 ∷ []) [] start
      (passed 200 none []) (record { polls = (λ g. refl, tt); others = λ s. refl }, tt) quick_reply

walk-retries_example : is_retryable 200 ≡ false
walk-retries_example =
    walk-retries opaque_json any_utf8 zero_hash request plan (turn 200 ∷ []) [] start 200 none []
      ((omega arith, omega arith), tt) (omega arith) quick_reply
