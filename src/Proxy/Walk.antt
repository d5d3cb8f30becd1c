-- ===== src/Proxy/Walk.antt =====
-- The buffered path of `handle` in src/proxy.rs: the walk over the plan. What the request meets on its way is
-- a list of turns, one for each step that it reaches: what others do meanwhile, the clock, and what
-- the provider answers. A request whose turns run out is still on its way.
pub mod Tried
pub mod Counts
pub mod Permits
pub mod Admitted
pub mod Answers
pub mod Retries
mod Examples
use llm_rate_limit_proxy.Base.{
  ℕ, zero, suc, ◌+◌, ◌*◌, ◌/◌, ◌%◌, ◌-◌, ◌^◌, ◌≤◌, ◌<◌, ◌≡◌, ◌≢◌, ◌⊎◌, inl, inr, refl, sym, ap,
  subst, ◌∙◌, arith, Bool, true, false, not, List, [], ◌∷◌, ◌++◌, Option, none, some, Text, codes,
  ltb, leb, ◌==◌, if◌then◌else◌, ◌&&◌, ◌||◌, max, min, map, filter_map, length, retain, take,
  is_empty, unwrap_or, and_then, or_option, map_or, is_some_and, any, all, find, count_if, same,
  same_iff, same_refl, Bool-cases, Option-cases, All, In, here, there, Result, ok, err, get_elem?,
  set, strip_prefix, In-append_cases, All-imp,
}
use llm_rate_limit_proxy.Base.Assoc.{get, insert, contains_key}
use llm_rate_limit_proxy.Config.{Protocol}
use llm_rate_limit_proxy.Json.{Json}
use llm_rate_limit_proxy.Governor.{Governor, note_rebuff, drop_permit}
use llm_rate_limit_proxy.Pool.Lanes.{Pool}
use llm_rate_limit_proxy.Dispatch
use llm_rate_limit_proxy.Dispatch.{Query, Permit, Round, Answer, done, acquire_for}
use llm_rate_limit_proxy.Metrics.{
  Metrics, record_event, record_queue_wait, record_latency, record_lane, record_ttft,
}
use llm_rate_limit_proxy.Metrics.Requests.{record_request}
use llm_rate_limit_proxy.Proxy.Path.{is_retryable}
use llm_rate_limit_proxy.Proxy.Plan.{PlanStep, bench_lane}
use llm_rate_limit_proxy.Proxy.Admission
use llm_rate_limit_proxy.Proxy.Admission.{Poll, Admission, admitted, gave_up, admit_model}
use llm_rate_limit_proxy.Proxy.Relay.{relay}
use llm_rate_limit_proxy.Proxy.Shared.{
  AppState, Upstream, Reply, deadline_exceeded, upstream_error, no_capacity, set_metrics,
}

-- What the walk knows of its request. `session` is the hash of the conversation.
pub record Request : Type 0 where
  pub client : Text
  pub model_label : Text
  pub session : Option ℕ
  pub wire : Protocol
  pub deadline : Option ℕ

-- How the wait for the provider's response ends, if it does before the deadline. The deadline does not cover the
-- response's body.
pub data Sent : Type 0 where
  failed : Sent
  answered : Upstream → Sent

-- What happens during one step. `others` is what others do to the shared state during the exchange.
pub record Turn : Type 0 where
  pub polls : List Poll
  pub rounds : List Round
  pub queued_ms : ℕ
  pub others : AppState → AppState
  pub sent : Option Sent
  pub benched_at : ℕ
  pub rebuffed_at : ℕ
  pub upstream_ms : ℕ
  pub gen_ms : ℕ

-- A request that went out to a provider.
pub record Outgoing : Type 0 where
  pub permit : Permit
  pub step : PlanStep

-- The shared state, and the requests sent so far.
pub record World : Type 0 where
  pub app : AppState
  pub sent : List Outgoing

-- What a step comes to: the client's answer, the next step without some lanes, or neither yet.
pub data Verdict : Type 0 where
  answers : Reply → Verdict
  moves_on : List ℕ → Verdict
  pending : Verdict

abbrev pub on_app : (AppState → AppState) → World → World
on_app f w = record w { app = f w.app }

unfoldable pub tally : Request → Text → AppState → AppState
tally rq status s =
    set_metrics (λ (m : Metrics). record_request rq.client rq.model_label status m) s

unfoldable pub expire : Request → AppState → AppState
unfolding tally
expire rq s = tally rq (codes "504") (set_metrics (record_event (codes "deadline")) s)

-- `with_deadline` over something that has not come.
unfoldable pub late : Request → World → World × Verdict
unfolding expire
late rq w = elim rq.deadline [
  | none ↦ (w, pending)
  | some _ ↦ (on_app (expire rq) w, answers deadline_exceeded)
]

abbrev pub set_governor : Governor → World → World
set_governor g w = record w { app = record (w.app) { governor = g } }

abbrev pub step_model : Request → PlanStep → Text
step_model rq step = unwrap_or step.model rq.model_label

abbrev pub query_of : Request → List ℕ → PlanStep → Query
query_of rq excluded step = record {
  provider = step.provider;
  exclude = excluded;
  session = rq.session;
  protocol = some rq.wire;
}

-- The lane is benched, which is an event if it is there, and the governor hears of it.
unfoldable pub rebuff : Text → Permit → ℕ → ℕ → Upstream → AppState → AppState
rebuff model permit benched_at rebuffed_at up s = record s {
  pool = bench_lane s.pool permit.lane_idx up.retry_after benched_at;
  metrics =
      map_or (get_elem? s.pool.lanes permit.lane_idx) s.metrics
        (λ _. record_event (codes "lane_benched") s.metrics);
  governor = note_rebuff model permit.lane_idx rebuffed_at s.governor;
}

-- The decimal print of a status, which has three digits.
unfoldable pub status_text : ℕ → Text
status_text n = (48 + n / 100) ∷ (48 + n / 10 % 10) ∷ (48 + n % 10) ∷ []

unfoldable pub tally_answer : Request → Permit → Turn → Upstream → AppState → AppState
unfolding tally status_text
tally_answer rq permit turn up s =
    set_metrics
      (λ (m : Metrics).
        record_ttft rq.model_label turn.upstream_ms
          (record_lane permit.provider (record_latency rq.model_label turn.upstream_ms m)))
      (tally rq (status_text up.status) s)

module _ {V : Type 0} (j : Json V) (utf8 : Text → Option Text) where
  unfoldable pub hand_over : Request → Permit → Turn → Upstream → World → World × Verdict
  unfolding tally_answer
  hand_over rq permit turn up w =
      let told =
        relay j utf8 rq.model_label turn.gen_ms up (tally_answer rq permit turn up w.app) in
      (record w { app = told.0 }, map_or told.1 pending answers)

  -- After the exchange.
  unfoldable pub conclude :
      Request → List ℕ → Bool → PlanStep → Permit → Turn → Option Sent → World → World × Verdict
  unfolding late tally rebuff hand_over
  conclude rq excluded is_last step permit turn none w = late rq w
  conclude rq excluded is_last step permit turn (some failed) w =
      if is_last
      then (on_app (tally rq (codes "502")) w, answers upstream_error)
      else (w, moves_on (excluded ++ permit.lane_idx ∷ []))
  conclude rq excluded is_last step permit turn (some (answered up)) w =
      if is_retryable up.status
      then (let w' =
            on_app (rebuff (step_model rq step) permit turn.benched_at turn.rebuffed_at up) w in
          if is_last
          then hand_over rq permit turn up w'
          else (w', moves_on (excluded ++ permit.lane_idx ∷ [])))
      else hand_over rq permit turn up w

  unfoldable pub dispatched :
      Request → List ℕ → Bool → PlanStep → Turn → Answer → World → World × Verdict
  unfolding late conclude
  dispatched rq excluded is_last step turn Dispatch.waiting w = late rq w
  dispatched rq excluded is_last step turn (done none) w = (w, moves_on excluded)
  dispatched rq excluded is_last step turn (done (some permit)) w =
      conclude rq excluded is_last step permit turn turn.sent (record w {
        app = turn.others (set_metrics (record_queue_wait turn.queued_ms) w.app);
        sent = w.sent ++ record { permit = permit; step = step } ∷ [];
      })

-- The model's permit is dropped at the end of the step, unless the step is still on.
unfoldable pub release : Text → World × Verdict → World × Verdict
release model (w, pending) = (w, pending)
release model (w, answers r) = (set_governor (drop_permit model w.app.governor) w, answers r)
release model (w, moves_on x) = (set_governor (drop_permit model w.app.governor) w, moves_on x)

module _ {V : Type 0} (j : Json V) (utf8 : Text → Option Text) (hash : ℕ → Text → Text → ℕ) where
  unfoldable pub with_permit : Request → List ℕ → Bool → PlanStep → Turn → World → World × Verdict
  unfolding dispatched
  with_permit rq excluded is_last step turn w =
      let got = acquire_for hash (query_of rq excluded step) turn.rounds w.app.pool in
      dispatched j utf8 rq excluded is_last step turn got.1
        (on_app (λ (s : AppState). record s { pool = got.0 }) w)

  unfoldable pub gated :
      Request → List ℕ → Bool → PlanStep → Turn → Admission → World → World × Verdict
  unfolding with_permit release expire
  gated rq excluded is_last step turn Admission.waiting w = (w, pending)
  gated rq excluded is_last step turn gave_up w = (on_app (expire rq) w, answers deadline_exceeded)
  gated rq excluded is_last step turn admitted w =
      release (step_model rq step) (with_permit rq excluded is_last step turn w)

  -- The client of a buffered request is taken to be there at each poll.
  abbrev pub admission : Request → PlanStep → Turn → World → Governor × Admission
  admission rq step turn w =
      admit_model (step_model rq step) rq.deadline
        (map (λ (p : Poll). record p { alive = true }) turn.polls) w.app.governor

  -- One step of the plan.
  unfoldable pub take_step : Request → List ℕ → Bool → PlanStep → Turn → World → World × Verdict
  unfolding gated
  take_step rq excluded is_last step turn w =
      gated rq excluded is_last step turn (admission rq step turn w).1
        (set_governor (admission rq step turn w).0 w)

  -- `none` for a request that is still on its way.
  abbrev pub follow :
      World × Verdict → (List ℕ → World → World × Option Reply) → World × Option Reply
  follow (w, answers r) next = (w, some r)
  follow (w, moves_on excluded) next = next excluded w
  follow (w, pending) next = (w, none)

  unfoldable pub walk : Request → List PlanStep → List Turn → List ℕ → World → World × Option Reply
  unfolding take_step tally
  walk rq [] turns excluded w = (on_app (tally rq (codes "503")) w, some no_capacity)
  walk rq (step ∷ plan) [] excluded w = (w, none)
  walk rq (step ∷ plan) (turn ∷ turns) excluded w =
      follow (take_step rq excluded (is_empty plan) step turn w) (walk rq plan turns)
