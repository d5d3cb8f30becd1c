-- ===== src/Proxy/Walk/Retries.antt =====
-- Which statuses the buffered walk of src/proxy.rs hands on.
use llm_rate_limit_proxy.Base.{
  ℕ, ◌≤◌, ◌<◌, ◌≡◌, subst, arith, false, List, [], ◌∷◌, Option, none, some, Text, length, map_or,
  All, on_if, on_option,
}
use llm_rate_limit_proxy.Json.{Json}
use llm_rate_limit_proxy.Dispatch
use llm_rate_limit_proxy.Dispatch.{Query, Permit, Answer, done, acquire_for}
use llm_rate_limit_proxy.Proxy.Plan.{PlanStep}
use llm_rate_limit_proxy.Proxy.Path.{is_retryable}
use llm_rate_limit_proxy.Proxy.Admission.{Admission, admitted, gave_up}
use llm_rate_limit_proxy.Proxy.Relay.{relay, relay_body}
use llm_rate_limit_proxy.Proxy.Shared.{AppState, Upstream, Reply, passed}
use llm_rate_limit_proxy.Proxy.Walk.{
  Request, Sent, failed, answered, Turn, World, Verdict, answers, moves_on, pending, late, query_of,
  step_model, tally_answer, hand_over, conclude, dispatched, release, with_permit, gated, take_step,
  follow, walk, admission, set_governor,
}
use llm_rate_limit_proxy.Proxy.Relay.{status_code}
use llm_rate_limit_proxy.Proxy.Shared.{refused}

-- A provider's status has three digits.
abbrev pub HasStatus : Option Sent → Type 0
HasStatus none = Unit
HasStatus (some failed) = Unit
HasStatus (some (answered up)) = (100 ≤ up.status) × (up.status < 1000)

-- No answer that hands on a retryable status.
abbrev IsFinalReply : Reply → Type 0
IsFinalReply (passed n ct b) = is_retryable n ≡ false
IsFinalReply (refused n c) = Unit

abbrev IsFinalAnswer : Option Reply → Type 0
IsFinalAnswer none = Unit
IsFinalAnswer (some r) = IsFinalReply r

unfoldable IsFinal : World × Verdict → Type 0
IsFinal (w, answers r) = IsFinalReply r
IsFinal (w, moves_on ex) = Unit
IsFinal (w, pending) = Unit

late-IsFinal : (rq : Request) (w : World) → IsFinal (late rq w)
unfolding late
late-IsFinal rq w =
    on_option IsFinal rq.deadline (w, pending) _ (λ e. unfold IsFinal in tt)
      (λ d e. unfold IsFinal in tt)

release-IsFinal : (model : Text) (x : World × Verdict) → IsFinal x → IsFinal (release model x)
unfolding release IsFinal
release-IsFinal model (w, pending) h = h
release-IsFinal model (w, answers r) h = h
release-IsFinal model (w, moves_on ex) h = h

module _ {V : Type 0} (j : Json V) (utf8 : Text → Option Text) where
  body-IsFinalReply :
      (model : Text) (gen_ms : ℕ) (up : Upstream) (payload : Text) (s : AppState)
      → HasStatus (some (answered up))
      → is_retryable up.status ≡ false
      → IsFinalReply (relay_body j utf8 model gen_ms up payload s).1
  unfolding relay_body status_code
  body-IsFinalReply model gen_ms up payload s h e = ground arith

  relay-IsFinalReply :
      (model : Text) (gen_ms : ℕ) (up : Upstream) (s : AppState)
      → HasStatus (some (answered up))
      → is_retryable up.status ≡ false
      → IsFinalAnswer (relay j utf8 model gen_ms up s).1
  unfolding relay relay_body status_code
  relay-IsFinalReply model gen_ms up s h e =
      on_option (λ (x : AppState × Option Reply). IsFinalAnswer x.1) up.payload _ _ (λ _. tt)
        (λ payload _. body-IsFinalReply model gen_ms up payload s h e)

  hand_over-IsFinal :
      (rq : Request) (permit : Permit) (t : Turn) (up : Upstream) (w : World)
      → HasStatus (some (answered up))
      → is_retryable up.status ≡ false
      → IsFinal (hand_over j utf8 rq permit t up w)
  unfolding hand_over IsFinal
  hand_over-IsFinal rq permit t up w h e =
      go
        (record w {
          app = (relay j utf8 rq.model_label t.gen_ms up (tally_answer rq permit t up w.app)).0;
        })
        (relay j utf8 rq.model_label t.gen_ms up (tally_answer rq permit t up w.app)).1
        (relay-IsFinalReply rq.model_label t.gen_ms up (tally_answer rq permit t up w.app) h e)
    where
      go : (w : World) (o : Option Reply) → IsFinalAnswer o → IsFinal (w, map_or o pending answers)
      go w none f = unfold IsFinal in tt
      go w (some r) f = unfold IsFinal in f

  conclude-IsFinal :
      (rq : Request) (excluded : List ℕ) (step : PlanStep) (permit : Permit) (t : Turn)
      (o : Option Sent) (w : World)
      → HasStatus o
      → IsFinal (conclude j utf8 rq excluded false step permit t o w)
  unfolding conclude
  conclude-IsFinal rq excluded step permit t none w h = late-IsFinal rq w
  conclude-IsFinal rq excluded step permit t (some failed) w h = unfold IsFinal in tt
  conclude-IsFinal rq excluded step permit t (some (answered up)) w h =
      on_if IsFinal (is_retryable up.status) _ (hand_over j utf8 rq permit t up w)
        (λ e. unfold IsFinal in tt) (λ e. hand_over-IsFinal rq permit t up w h e)

  dispatched-IsFinal :
      (rq : Request) (excluded : List ℕ) (step : PlanStep) (t : Turn) (a : Answer) (w : World)
      → HasStatus t.sent
      → IsFinal (dispatched j utf8 rq excluded false step t a w)
  unfolding dispatched
  dispatched-IsFinal rq excluded step t Dispatch.waiting w h = late-IsFinal rq w
  dispatched-IsFinal rq excluded step t (done none) w h = unfold IsFinal in tt
  dispatched-IsFinal rq excluded step t (done (some permit)) w h =
      conclude-IsFinal rq excluded step permit t t.sent _ h

module _ {V : Type 0} (j : Json V) (utf8 : Text → Option Text) (hash : ℕ → Text → Text → ℕ) where
  gated-IsFinal :
      (rq : Request) (excluded : List ℕ) (step : PlanStep) (t : Turn) (a : Admission) (w : World)
      → HasStatus t.sent
      → IsFinal (gated j utf8 hash rq excluded false step t a w)
  unfolding gated with_permit
  gated-IsFinal rq excluded step t Admission.waiting w h = unfold IsFinal in tt
  gated-IsFinal rq excluded step t gave_up w h = unfold IsFinal in tt
  gated-IsFinal rq excluded step t admitted w h =
      release-IsFinal (step_model rq step) (with_permit j utf8 hash rq excluded false step t w) (
        dispatched-IsFinal j utf8 rq excluded step t
          (acquire_for hash (query_of rq excluded step) t.rounds w.app.pool).1 _ h)

  take_step-IsFinal :
      (rq : Request) (excluded : List ℕ) (step : PlanStep) (t : Turn) (w : World)
      → HasStatus t.sent
      → IsFinal (take_step j utf8 hash rq excluded false step t w)
  unfolding take_step
  take_step-IsFinal rq excluded step t w h =
      gated-IsFinal rq excluded step t (admission j utf8 hash rq step t w).1
        (set_governor (admission j utf8 hash rq step t w).0 w) h

  -- As long as the plan has a step left, no answer of a provider with a retryable status is handed on.
  pub walk-retries :
      (rq : Request) (plan : List PlanStep) (turns : List Turn) (excluded : List ℕ) (w : World)
      (n : ℕ) (content_type : Option Text) (body : Text)
      → All (λ (t : Turn). HasStatus t.sent) turns
      → length turns < length plan
      → (walk j utf8 hash rq plan turns excluded w).1 ≡ some (passed n content_type body)
      → is_retryable n ≡ false
  unfolding walk
  walk-retries rq [] turns excluded w n ct body h lt e = absurd (omega arith)
  walk-retries rq (step ∷ plan) [] excluded w n ct body h lt e = absurd (ground arith)
  walk-retries rq (step ∷ []) (t ∷ turns) excluded w n ct body h lt e = absurd (omega arith)
  walk-retries rq (step ∷ next ∷ plan) (t ∷ turns) excluded w n ct body h lt e =
      go (take_step j utf8 hash rq excluded false step t w)
        (unfold IsFinal in take_step-IsFinal rq excluded step t w h.0) e
        (λ ex w' e'. walk-retries rq (next ∷ plan) turns ex w' n ct body h.1 (omega arith) e')
    where
      go :
          (x : World × Verdict)
          → IsFinal x
          → (follow j utf8 hash x (walk j utf8 hash rq (next ∷ plan) turns)).1
            ≡ some (passed n ct body)
          → ((ex : List ℕ) (w' : World)
              → (walk j utf8 hash rq (next ∷ plan) turns ex w').1 ≡ some (passed n ct body)
              → is_retryable n ≡ false)
          → is_retryable n ≡ false
      go (w', answers r) f e next =
          subst IsFinalReply {x = r} {y = passed n ct body} (ground arith) (unfold IsFinal in f)
      go (w', pending) f e next = absurd (ground arith)
      go (w', moves_on ex) f e next = next ex w' e
