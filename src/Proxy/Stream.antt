-- ===== src/Proxy/Stream.antt =====
-- `stream_proxy` of src/proxy.rs: the worker behind a committed event stream. It walks the plan as the buffered
-- path does, and may send a step's request once more, as the client wrote it.
pub mod Body
pub mod Plain
mod Examples
use llm_rate_limit_proxy.Base.{
  ℕ, zero, suc, ◌+◌, ◌*◌, ◌/◌, ◌%◌, ◌-◌, ◌^◌, ◌≤◌, ◌<◌, ◌≡◌, ◌≢◌, ◌⊎◌, inl, inr, refl, sym, ap,
  subst, ◌∙◌, arith, Bool, true, false, not, List, [], ◌∷◌, ◌++◌, Option, none, some, Text, codes,
  ltb, leb, ◌==◌, if◌then◌else◌, ◌&&◌, ◌||◌, max, min, map, filter_map, length, retain, take,
  is_empty, unwrap_or, and_then, or_option, map_or, is_some_and, any, all, find, count_if, same,
  same_iff, same_refl, Bool-cases, Option-cases, All, In, here, there, Result, ok, err, get_elem?,
  set, strip_prefix, drop, replicate, on_if, on_option, append-nil, append_assoc, In-append_cases,
  All-imp,
}
use llm_rate_limit_proxy.Base.Assoc.{get, insert, contains_key}
use llm_rate_limit_proxy.Json.{Json}
use llm_rate_limit_proxy.Governor.{Governor, drop_permit}
use llm_rate_limit_proxy.Pool.Lanes.{Pool}
use llm_rate_limit_proxy.Dispatch
use llm_rate_limit_proxy.Dispatch.{Permit, Round, Answer, done, acquire_for}
use llm_rate_limit_proxy.Metrics.{Metrics, record_queue_wait, record_lane}
use llm_rate_limit_proxy.Proxy.Path.{is_retryable}
use llm_rate_limit_proxy.Proxy.Plan.{PlanStep}
use llm_rate_limit_proxy.Proxy.Admission
use llm_rate_limit_proxy.Proxy.Admission.{Poll, Admission, admitted, gave_up, admit_model}
use llm_rate_limit_proxy.Proxy.Bodies.{Rewriting, rewrite_model}
use llm_rate_limit_proxy.Proxy.Relay.{is_success}
use llm_rate_limit_proxy.Proxy.Shared.{AppState, Upstream, set_metrics}
use llm_rate_limit_proxy.Proxy.Walk.{
  Request, Sent, failed, answered, tally, expire, rebuff, step_model, query_of,
}
use llm_rate_limit_proxy.Proxy.Stream.Body.{Frame, heartbeat, sse_error, Event, Flow, stream_body}

-- A request that went out, with its body, into which the step's model is written.
pub record Outgoing : Type 0 where
  pub permit : Permit
  pub step : PlanStep
  pub body : Text

pub record World : Type 0 where
  pub app : AppState
  pub no_inject : List Text
  pub sent : List Outgoing
  pub frames : List Frame

-- What the worker carries from step to step.
pub record Draft : Type 0 where
  pub body : Text
  pub fallback : Option Text
  pub retried_plain : Bool
  pub excluded : List ℕ

-- What happens during one step. `results` are those of the rounds of the inner loop, `gone` a client that hangs
-- up while its request waits for a lane, `poll_beats` and `beats` the heartbeats of the two waits, and `events` what the response's body brings.
pub record Turn : Type 0 where
  pub polls : List Poll
  pub poll_beats : ℕ
  pub rounds : List Round
  pub gone : Bool
  pub beats : ℕ
  pub queued_ms : ℕ
  pub others : AppState → AppState
  pub results : List (Option Sent)
  pub benched_at : ℕ
  pub rebuffed_at : ℕ
  pub events : List Event

pub data Verdict : Type 0 where
  ended pending : Verdict
  moves_on : Draft → Verdict

abbrev pub on_app : (AppState → AppState) → World → World
on_app f w = record w { app = f w.app }

abbrev pub emit : Frame → World → World
emit f w = record w { frames = w.frames ++ f ∷ [] }

unfoldable pub fail : Request → Text → Text → World → World × Verdict
unfolding tally
fail rq status code w = (emit (sse_error code) (on_app (tally rq status) w), ended)

unfoldable pub give_up : Request → World → World × Verdict
unfolding expire
give_up rq w = (emit (sse_error (codes "deadline_exceeded")) (on_app (expire rq) w), ended)

unfoldable pub late : Request → Bool → World → World × Verdict
unfolding give_up
late rq gone w = if is_some_and rq.deadline (λ d. true) || gone then give_up rq w else (w, pending)

unfoldable pub is_rejected : Option Sent → Bool
is_rejected none = false
is_rejected (some failed) = false
is_rejected (some (answered up)) = up.status == 400

-- The inner loop, a round for each result. A rejection after `stream_options` was added is tried again without.
module _ {V : Type 0} (j : Json V) (rw' : Rewriting V) where
  unfoldable pub send_loop :
      Permit → PlanStep → List (Option Sent) → Draft → World → (World × Draft) × Option Sent
  unfolding is_rejected rewrite_model
  send_loop permit step [] d w = ((w, d), none)
  send_loop permit step (r ∷ rs) d w =
      let w' = record w {
        sent =
            w.sent
            ++ record { permit = permit; step = step; body = rewrite_model j rw' d.body step.model }
              ∷ [];
      } in
      elim d.fallback [
        | none ↦ ((w', d), r)
        | some plain ↦
            let again =
              send_loop permit step rs
                (record d { body = plain; fallback = none; retried_plain = true }) w' in
            if is_rejected r then again else ((w', d), r)
      ]

-- `no_inject` is a set.
unfoldable pub learn_plain : Text → Bool → Upstream → World → World
unfolding is_success
learn_plain model retried up w =
    if retried && is_success up.status
    then (if any (λ m. same m model) w.no_inject
        then w
        else record w { no_inject = model ∷ w.no_inject })
    else w

module _ {V : Type 0} (j : Json V) (rw' : Rewriting V) (lossy : Text → Text) where
  unfoldable pub hand_over : Request → Draft → Permit → Turn → Upstream → World → World × Verdict
  unfolding learn_plain tally stream_body
  hand_over rq d permit turn up w =
      let w1 = learn_plain rq.model_label d.retried_plain up w in
      let w2 =
        on_app
          (λ (s : AppState). set_metrics (record_lane permit.provider) (tally rq (codes "200") s))
          w1 in
      let told = stream_body j lossy rq.model_label turn.events w2.app.metrics in
      (
        record w2 {
          app = record (w2.app) { metrics = told.0.metrics };
          frames = w2.frames ++ told.0.frames;
        },
        if told.1 then ended else pending,
      )

  -- After the inner loop.
  unfoldable pub conclude :
      Request → Bool → PlanStep → Permit → Turn → (World × Draft) × Option Sent → World × Verdict
  unfolding late fail hand_over
  conclude rq is_last step permit turn ((w, d), none) = late rq false w
  conclude rq is_last step permit turn ((w, d), some failed) =
      if is_last
      then fail rq (codes "502") (codes "upstream_error") w
      else (w, moves_on (record d { excluded = d.excluded ++ permit.lane_idx ∷ [] }))
  conclude rq is_last step permit turn ((w, d), some (answered up)) =
      if is_retryable up.status
      then (let w' =
            on_app (rebuff (step_model rq step) permit turn.benched_at turn.rebuffed_at up) w in
          if is_last
          then hand_over rq d permit turn up w'
          else (w', moves_on (record d { excluded = d.excluded ++ permit.lane_idx ∷ [] })))
      else hand_over rq d permit turn up w

  unfoldable pub dispatched :
      Request → Bool → PlanStep → Turn → Answer → Draft → World → World × Verdict
  unfolding late conclude send_loop
  dispatched rq is_last step turn Dispatch.waiting d w = late rq turn.gone w
  dispatched rq is_last step turn (done none) d w = (w, moves_on d)
  dispatched rq is_last step turn (done (some permit)) d w = conclude rq is_last step permit turn (
      send_loop j rw' permit step turn.results d (
        on_app (λ (s : AppState). turn.others (set_metrics (record_queue_wait turn.queued_ms) s))
          w))

-- The model's permit is dropped at the end of the step.
unfoldable pub release : Text → World × Verdict → World × Verdict
release model (w, pending) = (w, pending)
release model (w, ended) =
    (on_app (λ (s : AppState). record s { governor = drop_permit model s.governor }) w, ended)
release model (w, moves_on d) =
    (on_app (λ (s : AppState). record s { governor = drop_permit model s.governor }) w, moves_on d)

module _ {V : Type 0} (j : Json V) (rw' : Rewriting V) (lossy : Text → Text)
    (hash : ℕ → Text → Text → ℕ) where
  unfoldable pub with_permit : Request → Bool → PlanStep → Turn → Draft → World → World × Verdict
  unfolding dispatched
  with_permit rq is_last step turn d w =
      let got = acquire_for hash (query_of rq d.excluded step) turn.rounds w.app.pool in
      dispatched j rw' lossy rq is_last step turn got.1 d (record w {
        app = record (w.app) { pool = got.0 };
        frames = w.frames ++ replicate turn.beats heartbeat;
      })

  unfoldable pub gated :
      Request → Bool → PlanStep → Turn → Admission → Draft → World → World × Verdict
  unfolding with_permit release give_up
  gated rq is_last step turn Admission.waiting d w = (w, pending)
  gated rq is_last step turn gave_up d w = give_up rq w
  gated rq is_last step turn admitted d w =
      release (step_model rq step) (with_permit rq is_last step turn d w)

  unfoldable pub take_step : Request → Bool → PlanStep → Turn → Draft → World → World × Verdict
  unfolding gated
  take_step rq is_last step turn d w =
      let asked = admit_model (step_model rq step) rq.deadline turn.polls w.app.governor in
      gated rq is_last step turn asked.1 d (record w {
        app = record (w.app) { governor = asked.0 };
        frames = w.frames ++ replicate turn.poll_beats heartbeat;
      })

  -- `true` for a worker that has ended.
  abbrev pub follow : World × Verdict → (Draft → World → World × Bool) → World × Bool
  follow (w, ended) next = (w, true)
  follow (w, moves_on d) next = next d w
  follow (w, pending) next = (w, false)

  unfoldable pub walk : Request → List PlanStep → List Turn → Draft → World → World × Bool
  unfolding take_step fail
  walk rq [] turns d w = ((fail rq (codes "503") (codes "no_capacity") w).0, true)
  walk rq (step ∷ plan) [] d w = (w, false)
  walk rq (step ∷ plan) (turn ∷ turns) d w =
      follow (take_step rq (is_empty plan) step turn d w) (walk rq plan turns)

  -- `body` is the one with `stream_options` where `fallback` is there. A client that is gone at the first
  -- heartbeat ends the worker.
  unfoldable pub stream_proxy :
      Request → Bool → Text → Option Text → List PlanStep → List Turn → World → World × Bool
  unfolding walk
  stream_proxy rq present body fallback plan turns w =
      if present
      then walk rq plan turns
          (record { body = body; fallback = fallback; retried_plain = false; excluded = [] })
          (emit heartbeat w)
      else (w, true)
