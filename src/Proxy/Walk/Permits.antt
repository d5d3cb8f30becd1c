-- ===== src/Proxy/Walk/Permits.antt =====
-- The buffered walk of src/proxy.rs gives back every permit that it takes from the governor.
use llm_rate_limit_proxy.Base.{
  ℕ, ◌≡◌, refl, ap, subst, ◌∙◌, arith, Bool, true, false, List, [], ◌∷◌, ◌++◌, Option, none, some,
  Text, map, is_empty, All, on_if, on_option,
}
use llm_rate_limit_proxy.Json.{Json}
use llm_rate_limit_proxy.Dispatch
use llm_rate_limit_proxy.Dispatch.{Query, Permit, Answer, done, acquire_for}
use llm_rate_limit_proxy.Proxy.Plan.{PlanStep}
use llm_rate_limit_proxy.Proxy.Path.{is_retryable}
use llm_rate_limit_proxy.Proxy.Admission.{Poll, Admission, admitted, gave_up}
use llm_rate_limit_proxy.Proxy.Shared.{AppState, Upstream, Reply, set_metrics}
use llm_rate_limit_proxy.Proxy.Walk.{
  Request, Sent, failed, answered, Turn, World, Verdict, answers, moves_on, pending, late, query_of,
  step_model, rebuff, tally_answer, tally, expire, hand_over, conclude, dispatched, release,
  with_permit, gated, take_step, follow, walk, on_app, admission, set_governor,
}
use llm_rate_limit_proxy.Metrics.{record_queue_wait}
use llm_rate_limit_proxy.Governor.{inflight}
use llm_rate_limit_proxy.Proxy.Relay.{relay-Keeps}
use llm_rate_limit_proxy.Proxy.Walk.Admitted.{
  after_asking, IsEven, is_admitted, IsAsked, admit_model-IsAsked, inflight-note_rebuff,
  inflight-drop_permit,
}

-- Of `model`, others leave in flight what they found, between the polls and during the exchange.
pub record IsBalanced (model : Text) (t : Turn) : Type 0 where
  pub polls : All (λ (p : Poll). IsEven model p.meanwhile) t.polls
  pub others : (s : AppState) → inflight model (t.others s).governor ≡ inflight model s.governor

-- The walk's verdict with the permits of `model` that are then in flight, of which it holds none.
unfoldable IsPaid : Text → ℕ → World × Verdict → Type 0
IsPaid model n (w, pending) = Unit
IsPaid model n (w, answers r) = inflight model w.app.governor ≡ n
IsPaid model n (w, moves_on ex) = inflight model w.app.governor ≡ n

module _ {V : Type 0} (j : Json V) (utf8 : Text → Option Text) (model : Text) where
  -- The governor's count is `n`.
  unfoldable Counts : ℕ → World × Verdict → Type 0
  Counts n x = inflight model x.0.app.governor ≡ n

  late-Counts : (rq : Request) (w : World) → Counts (inflight model w.app.governor) (late rq w)
  unfolding late
  late-Counts rq w =
      on_option (Counts (inflight model w.app.governor)) rq.deadline (w, pending) _
        (λ e. unfold Counts in refl) (λ d e. unfold Counts expire tally in refl)

  hand_over-Counts :
      (rq : Request) (permit : Permit) (t : Turn) (up : Upstream) (w : World)
      → Counts (inflight model w.app.governor) (hand_over j utf8 rq permit t up w)
  unfolding hand_over Counts
  hand_over-Counts rq permit t up w = ap (inflight model) (
      (relay-Keeps j utf8 rq.model_label t.gen_ms up (tally_answer rq permit t up w.app)).governor
      ∙ tallied-governor rq permit t up w.app)
    where
      tallied-governor :
          (rq : Request) (permit : Permit) (t : Turn) (up : Upstream) (s : AppState)
          → (tally_answer rq permit t up s).governor ≡ s.governor
      tallied-governor rq permit t up s = unfold tally_answer tally in refl

  rebuff-Counts :
      (m : Text) (permit : Permit) (at at' : ℕ) (up : Upstream) (s : AppState)
      → inflight model (rebuff m permit at at' up s).governor ≡ inflight model s.governor
  unfolding rebuff
  rebuff-Counts m permit at at' up s = inflight-note_rebuff model m permit.lane_idx at' s.governor

  conclude-Counts :
      (rq : Request) (excluded : List ℕ) (b : Bool) (step : PlanStep) (permit : Permit) (t : Turn)
      (o : Option Sent) (w : World)
      → Counts (inflight model w.app.governor) (conclude j utf8 rq excluded b step permit t o w)
  unfolding conclude
  conclude-Counts rq excluded b step permit t none w = late-Counts rq w
  conclude-Counts rq excluded true step permit t (some failed) w = unfold Counts tally in refl
  conclude-Counts rq excluded false step permit t (some failed) w = unfold Counts in refl
  conclude-Counts rq excluded b step permit t (some (answered up)) w =
      let P = Counts (inflight model w.app.governor) in
      let w' = on_app (rebuff (step_model rq step) permit t.benched_at t.rebuffed_at up) w in
      let even = rebuff-Counts (step_model rq step) permit t.benched_at t.rebuffed_at up w.app in
      on_if P (is_retryable up.status) _ (hand_over j utf8 rq permit t up w)
        (λ h.
          on_if P b (hand_over j utf8 rq permit t up w')
            (w', moves_on (excluded ++ permit.lane_idx ∷ []))
            (λ e.
              subst (λ n. Counts n (hand_over j utf8 rq permit t up w')) even
                (hand_over-Counts rq permit t up w'))
            (λ e. unfold Counts in even))
        (λ h. hand_over-Counts rq permit t up w)

  dispatched-Counts :
      (rq : Request) (excluded : List ℕ) (b : Bool) (step : PlanStep) (t : Turn) (a : Answer)
      (w : World)
      → IsBalanced model t
      → Counts (inflight model w.app.governor) (dispatched j utf8 rq excluded b step t a w)
  unfolding dispatched
  dispatched-Counts rq excluded b step t Dispatch.waiting w u = late-Counts rq w
  dispatched-Counts rq excluded b step t (done none) w u = unfold Counts in refl
  dispatched-Counts rq excluded b step t (done (some permit)) w u =
      let w' : World = record w {
        app = t.others (set_metrics (record_queue_wait t.queued_ms) w.app);
        sent = w.sent ++ record { permit = permit; step = step } ∷ [];
      } in
      subst (λ n. Counts n (conclude j utf8 rq excluded b step permit t t.sent w'))
        {x = inflight model w'.app.governor} {y = inflight model w.app.governor}
        (u.others (set_metrics (record_queue_wait t.queued_ms) w.app))
        (conclude-Counts rq excluded b step permit t t.sent w')

-- A permit that was taken is back after the step, unless the step is still on.
release-IsPaid :
    (model m : Text) (n : ℕ) (x : World × Verdict)
    → inflight model x.0.app.governor ≡ after_asking m model true n
    → IsPaid model n (release m x)
unfolding release IsPaid
release-IsPaid model m n (w, pending) h = tt
release-IsPaid model m n (w, answers r) h =
    ground (arith, inflight-drop_permit model m w.app.governor)
release-IsPaid model m n (w, moves_on ex) h =
    ground (arith, inflight-drop_permit model m w.app.governor)

module _ {V : Type 0} (j : Json V) (utf8 : Text → Option Text) (hash : ℕ → Text → Text → ℕ)
    (model : Text) where
  gated-IsPaid :
      (rq : Request) (excluded : List ℕ) (b : Bool) (step : PlanStep) (t : Turn) (a : Admission)
      (n : ℕ) (w : World)
      → IsBalanced model t
      → inflight model w.app.governor ≡ after_asking (step_model rq step) model (is_admitted a) n
      → IsPaid model n (gated j utf8 hash rq excluded b step t a w)
  unfolding gated with_permit is_admitted
  gated-IsPaid rq excluded b step t Admission.waiting n w u h = unfold IsPaid in tt
  gated-IsPaid rq excluded b step t gave_up n w u h = unfold IsPaid expire tally in ground arith
  gated-IsPaid rq excluded b step t admitted n w u h =
      let got = acquire_for hash (query_of rq excluded step) t.rounds w.app.pool in
      let w' = on_app (λ (s : AppState). record s { pool = got.0 }) w in
      let even : inflight model (dispatched j utf8 rq excluded b step t got.1 w').0.app.governor
          ≡ inflight model w'.app.governor =
        unfold Counts in dispatched-Counts j utf8 model rq excluded b step t got.1 w' u in
      release-IsPaid model (step_model rq step) n (dispatched j utf8 rq excluded b step t got.1 w')
        (even ∙ h)

  take_step-IsPaid :
      (rq : Request) (excluded : List ℕ) (b : Bool) (step : PlanStep) (t : Turn) (w : World)
      → IsBalanced model t
      → IsPaid model (inflight model w.app.governor) (take_step j utf8 hash rq excluded b step t w)
  unfolding take_step
  take_step-IsPaid rq excluded b step t w u =
      gated-IsPaid rq excluded b step t (admission j utf8 hash rq step t w).1
        (inflight model w.app.governor) (set_governor (admission j utf8 hash rq step t w).0 w) u
        (unfold IsAsked in
          admit_model-IsAsked model (step_model rq step) rq.deadline
            (map (λ (p : Poll). record p { alive = true }) t.polls) w.app.governor
            (All-map t.polls u.polls))
    where
      All-map :
          (ps : List Poll)
          → All (λ (p : Poll). IsEven model p.meanwhile) ps
          → All
              (λ (p : Poll). IsEven model p.meanwhile)
              (map (λ (p : Poll). record p { alive = true }) ps)
      All-map [] h = tt
      All-map (p ∷ ps) h = (h.0, All-map ps h.1)

  -- Once a request is answered, with whatever answer, as many permits of a model are in flight as before
  -- it came, as long as others give back what they take.
  pub inflight-walk :
      (rq : Request) (plan : List PlanStep) (turns : List Turn) (excluded : List ℕ) (w : World)
      (r : Reply)
      → All (IsBalanced model) turns
      → (walk j utf8 hash rq plan turns excluded w).1 ≡ some r
      → inflight model (walk j utf8 hash rq plan turns excluded w).0.app.governor
        ≡ inflight model w.app.governor
  unfolding walk
  inflight-walk rq [] turns excluded w r u e = unfold tally in refl
  inflight-walk rq (step ∷ plan) [] excluded w r u e = absurd (ground arith)
  inflight-walk rq (step ∷ plan) (t ∷ turns) excluded w r u e =
      go (take_step j utf8 hash rq excluded (is_empty plan) step t w)
        (take_step-IsPaid rq excluded (is_empty plan) step t w u.0) e
        (λ ex w' h. inflight-walk rq plan turns ex w' r u.1 h)
    where
      go :
          (x : World × Verdict)
          → IsPaid model (inflight model w.app.governor) x
          → (follow j utf8 hash x (walk j utf8 hash rq plan turns)).1 ≡ some r
          → ((ex : List ℕ) (w' : World)
              → (walk j utf8 hash rq plan turns ex w').1 ≡ some r
              → inflight model (walk j utf8 hash rq plan turns ex w').0.app.governor
                ≡ inflight model w'.app.governor)
          → inflight model (follow j utf8 hash x (walk j utf8 hash rq plan turns)).0.app.governor
            ≡ inflight model w.app.governor
      go (w', answers x) p h next = unfold IsPaid in p
      go (w', pending) p h next = absurd (ground arith)
      go (w', moves_on ex) p h next = next ex w' h ∙ (unfold IsPaid in p)
