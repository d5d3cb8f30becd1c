-- ===== src/Proxy/Walk/Counts.antt =====
-- Every answer of the buffered walk of src/proxy.rs is counted once.
use llm_rate_limit_proxy.Base.{
  ◌⊎◌, inl, inr, ℕ, suc, ◌≡◌, refl, ap, subst, ◌∙◌, arith, Bool, true, false, List, [], ◌∷◌, ◌++◌,
  Option, none, some, Text, codes, is_empty, map_or, All, on_if, on_option,
}
use llm_rate_limit_proxy.Json.{Json}
use llm_rate_limit_proxy.Dispatch
use llm_rate_limit_proxy.Dispatch.{Query, Permit, Answer, done, acquire_for}
use llm_rate_limit_proxy.Proxy.Plan.{PlanStep}
use llm_rate_limit_proxy.Proxy.Path.{is_retryable}
use llm_rate_limit_proxy.Proxy.Admission.{Admission, admitted, gave_up}
use llm_rate_limit_proxy.Proxy.Relay.{relay}
use llm_rate_limit_proxy.Proxy.Shared.{AppState, Upstream, Reply, set_metrics}
use llm_rate_limit_proxy.Proxy.Walk.{
  Request, Sent, failed, answered, Turn, World, Verdict, answers, moves_on, pending, late, query_of,
  step_model, rebuff, tally_answer, tally, expire, status_text, hand_over, conclude, dispatched,
  release, with_permit, gated, take_step, follow, walk, on_app, admission, set_governor,
}
use llm_rate_limit_proxy.Metrics.{
  Metrics, record_event, record_queue_wait, record_latency, record_lane, record_ttft,
}
use llm_rate_limit_proxy.Metrics.Requests.{total_of, total, total-record_request}
use llm_rate_limit_proxy.Proxy.Relay.{relay-Keeps}

-- What others do leaves this request's share of the count alone.
abbrev pub IsUncounted : Turn → Type 0
IsUncounted t = (s : AppState) → total (t.others s).metrics ≡ total s.metrics

-- The count that is due: one more once there is an answer, and one at most before, when the answer's body is read.
abbrev pub IsCounted : Option Reply → ℕ → ℕ → Type 0
IsCounted (some r) before after = after ≡ suc before
IsCounted none before after = (after ≡ before) ⊎ (after ≡ suc before)

abbrev IsDue : Verdict → ℕ → ℕ → Type 0
IsDue (answers r) before after = after ≡ suc before
IsDue (moves_on ex) before after = after ≡ before
IsDue pending before after = (after ≡ before) ⊎ (after ≡ suc before)

unfoldable IsTallied : ℕ → World × Verdict → Type 0
IsTallied n x = IsDue x.1 n (total x.0.app.metrics)

tally-total :
    (rq : Request) (status : Text) (s : AppState)
    → total (tally rq status s).metrics ≡ suc (total s.metrics)
unfolding tally
tally-total rq status s = total-record_request rq.client rq.model_label status s.metrics

expire-total : (rq : Request) (s : AppState) → total (expire rq s).metrics ≡ suc (total s.metrics)
unfolding expire
expire-total rq s =
    tally-total rq (codes "504") (set_metrics (record_event (codes "deadline")) s)
    ∙ ap suc (unfold total record_event in refl)

timed-total :
    (model provider : Text) (ms : ℕ) (m : Metrics)
    → total (record_ttft model ms (record_lane provider (record_latency model ms m))) ≡ total m
unfolding total record_ttft record_lane record_latency
timed-total model provider ms m = refl

tally_answer-total :
    (rq : Request) (permit : Permit) (t : Turn) (up : Upstream) (s : AppState)
    → total (tally_answer rq permit t up s).metrics ≡ suc (total s.metrics)
unfolding tally_answer
tally_answer-total rq permit t up s =
    timed-total rq.model_label permit.provider t.upstream_ms
      (tally rq (status_text up.status) s).metrics
    ∙ tally-total rq (status_text up.status) s

rebuff-total :
    (model : Text) (permit : Permit) (at at' : ℕ) (up : Upstream) (s : AppState)
    → total (rebuff model permit at at' up s).metrics ≡ total s.metrics
unfolding rebuff total record_event
rebuff-total model permit at at' up s = ground arith

late-IsTallied : (rq : Request) (w : World) → IsTallied (total w.app.metrics) (late rq w)
unfolding late
late-IsTallied rq w =
    on_option (IsTallied (total w.app.metrics)) rq.deadline (w, pending) _
      (λ e. unfold IsTallied in inl refl) (λ d e. unfold IsTallied in expire-total rq w.app)

queue_wait-total : (ms : ℕ) (m : Metrics) → total (record_queue_wait ms m) ≡ total m
unfolding total record_queue_wait
queue_wait-total ms m = refl

module _ {V : Type 0} (j : Json V) (utf8 : Text → Option Text) where
  relay-total :
      (model : Text) (gen_ms : ℕ) (up : Upstream) (s : AppState)
      → total (relay j utf8 model gen_ms up s).0.metrics ≡ total s.metrics
  unfolding total
  relay-total model gen_ms up s = ap total_of (relay-Keeps j utf8 model gen_ms up s).requests

  hand_over-IsTallied :
      (rq : Request) (permit : Permit) (t : Turn) (up : Upstream) (w : World)
      → IsTallied (total w.app.metrics) (hand_over j utf8 rq permit t up w)
  unfolding hand_over IsTallied
  hand_over-IsTallied rq permit t up w =
      go (relay j utf8 rq.model_label t.gen_ms up (tally_answer rq permit t up w.app)).1 (
        relay-total rq.model_label t.gen_ms up (tally_answer rq permit t up w.app)
        ∙ tally_answer-total rq permit t up w.app)
    where
      go :
          (o : Option Reply) {n after : ℕ}
          → after ≡ suc n
          → IsDue (map_or o pending answers) n after
      go none e = inr e
      go (some r) e = e

  conclude-IsTallied :
      (rq : Request) (excluded : List ℕ) (b : Bool) (step : PlanStep) (permit : Permit) (t : Turn)
      (o : Option Sent) (w : World)
      → IsTallied (total w.app.metrics) (conclude j utf8 rq excluded b step permit t o w)
  unfolding conclude
  conclude-IsTallied rq excluded b step permit t none w = late-IsTallied rq w
  conclude-IsTallied rq excluded true step permit t (some failed) w =
      unfold IsTallied in tally-total rq (codes "502") w.app
  conclude-IsTallied rq excluded false step permit t (some failed) w = unfold IsTallied in refl
  conclude-IsTallied rq excluded b step permit t (some (answered up)) w =
      let w' = on_app (rebuff (step_model rq step) permit t.benched_at t.rebuffed_at up) w in
      let same_total =
        rebuff-total (step_model rq step) permit t.benched_at t.rebuffed_at up w.app in
      on_if (IsTallied (total w.app.metrics)) (is_retryable up.status) _
        (hand_over j utf8 rq permit t up w)
        (λ h.
          on_if (IsTallied (total w.app.metrics)) b (hand_over j utf8 rq permit t up w')
            (w', moves_on (excluded ++ permit.lane_idx ∷ []))
            (λ e.
              subst (λ n. IsTallied n (hand_over j utf8 rq permit t up w')) same_total
                (hand_over-IsTallied rq permit t up w'))
            (λ e. unfold IsTallied in same_total))
        (λ h. hand_over-IsTallied rq permit t up w)

  dispatched-IsTallied :
      (rq : Request) (excluded : List ℕ) (b : Bool) (step : PlanStep) (t : Turn) (a : Answer)
      (w : World)
      → IsUncounted t
      → IsTallied (total w.app.metrics) (dispatched j utf8 rq excluded b step t a w)
  unfolding dispatched
  dispatched-IsTallied rq excluded b step t Dispatch.waiting w u = late-IsTallied rq w
  dispatched-IsTallied rq excluded b step t (done none) w u = unfold IsTallied in refl
  dispatched-IsTallied rq excluded b step t (done (some permit)) w u =
      let w' : World = record w {
        app = t.others (set_metrics (record_queue_wait t.queued_ms) w.app);
        sent = w.sent ++ record { permit = permit; step = step } ∷ [];
      } in
      subst (λ n. IsTallied n (conclude j utf8 rq excluded b step permit t t.sent w'))
        {x = total w'.app.metrics} {y = total w.app.metrics}
        (u (set_metrics (record_queue_wait t.queued_ms) w.app)
          ∙ queue_wait-total t.queued_ms w.app.metrics)
        (conclude-IsTallied rq excluded b step permit t t.sent w')

release-IsTallied :
    (n : ℕ) (model : Text) (x : World × Verdict) → IsTallied n x → IsTallied n (release model x)
unfolding release IsTallied
release-IsTallied n model (w, pending) h = h
release-IsTallied n model (w, answers r) h = h
release-IsTallied n model (w, moves_on ex) h = h

module _ {V : Type 0} (j : Json V) (utf8 : Text → Option Text) (hash : ℕ → Text → Text → ℕ) where
  gated-IsTallied :
      (rq : Request) (excluded : List ℕ) (b : Bool) (step : PlanStep) (t : Turn) (a : Admission)
      (w : World)
      → IsUncounted t
      → IsTallied (total w.app.metrics) (gated j utf8 hash rq excluded b step t a w)
  unfolding gated with_permit
  gated-IsTallied rq excluded b step t Admission.waiting w u = unfold IsTallied in inl refl
  gated-IsTallied rq excluded b step t gave_up w u = unfold IsTallied in expire-total rq w.app
  gated-IsTallied rq excluded b step t admitted w u =
      release-IsTallied (total w.app.metrics) (step_model rq step)
        (with_permit j utf8 hash rq excluded b step t w)
        (dispatched-IsTallied j utf8 rq excluded b step t
          (acquire_for hash (query_of rq excluded step) t.rounds w.app.pool).1
          (on_app
            (λ (s : AppState). record s {
              pool = (acquire_for hash (query_of rq excluded step) t.rounds w.app.pool).0;
            })
            w)
          u)

  take_step-IsTallied :
      (rq : Request) (excluded : List ℕ) (b : Bool) (step : PlanStep) (t : Turn) (w : World)
      → IsUncounted t
      → IsTallied (total w.app.metrics) (take_step j utf8 hash rq excluded b step t w)
  unfolding take_step
  take_step-IsTallied rq excluded b step t w u =
      gated-IsTallied rq excluded b step t (admission j utf8 hash rq step t w).1
        (set_governor (admission j utf8 hash rq step t w).0 w) u

  -- A buffered request whose plan is walked adds one to the count of requests once it is answered, whatever the answer
  -- is, and one at most while it is on its way, as long as what others do is counted apart.
  pub walk-total :
      (rq : Request) (plan : List PlanStep) (turns : List Turn) (excluded : List ℕ) (w : World)
      → All IsUncounted turns
      → IsCounted
          (walk j utf8 hash rq plan turns excluded w).1
          (total w.app.metrics)
          (total (walk j utf8 hash rq plan turns excluded w).0.app.metrics)
  unfolding walk
  walk-total rq [] turns excluded w u = tally-total rq (codes "503") w.app
  walk-total rq (step ∷ plan) [] excluded w u = inl refl
  walk-total rq (step ∷ plan) (t ∷ turns) excluded w u =
      go (take_step j utf8 hash rq excluded (is_empty plan) step t w)
        (unfold IsTallied in take_step-IsTallied rq excluded (is_empty plan) step t w u.0)
        (λ ex w'. walk-total rq plan turns ex w' u.1)
    where
      go :
          (x : World × Verdict)
          → IsDue x.1 (total w.app.metrics) (total x.0.app.metrics)
          → ((ex : List ℕ) (w' : World)
              → IsCounted
                  (walk j utf8 hash rq plan turns ex w').1
                  (total w'.app.metrics)
                  (total (walk j utf8 hash rq plan turns ex w').0.app.metrics))
          → IsCounted
              (follow j utf8 hash x (walk j utf8 hash rq plan turns)).1
              (total w.app.metrics)
              (total (follow j utf8 hash x (walk j utf8 hash rq plan turns)).0.app.metrics)
      go (w', answers r) e next = e
      go (w', pending) e next = e
      go (w', moves_on ex) e next =
          subst
            (λ n.
              IsCounted (walk j utf8 hash rq plan turns ex w').1 n
                (total (walk j utf8 hash rq plan turns ex w').0.app.metrics))
            e (next ex w')
