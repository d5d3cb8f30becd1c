-- ===== src/Proxy/Walk/Answers.antt =====
-- A request of the buffered walk of src/proxy.rs that has a deadline is answered.
use llm_rate_limit_proxy.Base.{
  ◌++◌, on_if, ℕ, ◌+◌, ◌≤◌, ◌≡◌, refl, arith, Bool, true, List, [], ◌∷◌, Option, none, some, Text,
  map, length, is_empty, All,
}
use llm_rate_limit_proxy.Json.{Json}
use llm_rate_limit_proxy.Dispatch
use llm_rate_limit_proxy.Dispatch.{Query, Permit, Answer, done, acquire_for}
use llm_rate_limit_proxy.Proxy.Plan.{PlanStep}
use llm_rate_limit_proxy.Proxy.Admission.{Poll, Admission, admitted, gave_up, admit_model}
use llm_rate_limit_proxy.Proxy.Shared.{Upstream, Reply}
use llm_rate_limit_proxy.Proxy.Path.{is_retryable}
use llm_rate_limit_proxy.Proxy.Relay.{relay}
use llm_rate_limit_proxy.Proxy.Walk.{
  rebuff, on_app, Request, Sent, failed, answered, Turn, World, Verdict, answers, moves_on, pending,
  late, query_of, step_model, hand_over, conclude, dispatched, release, with_permit, gated,
  take_step, follow, walk, admission, set_governor,
}
use llm_rate_limit_proxy.Governor.{Governor, admit}
use llm_rate_limit_proxy.Proxy.Admission.{governor_poll}

-- The last of the polls comes within one of the deadline.
abbrev pub IsLong : ℕ → List Poll → Type 0
IsLong deadline [] = ⊥
IsLong deadline (p ∷ []) = deadline ≤ p.checked + governor_poll
IsLong deadline (p ∷ q ∷ ps) = IsLong deadline (q ∷ ps)

abbrev IsSettled : Admission → Type 0
IsSettled admitted = Unit
IsSettled gave_up = Unit
IsSettled Admission.waiting = ⊥

admit_model-IsSettled :
    (model : Text) (deadline : ℕ) (ps : List Poll) (g : Governor)
    → IsLong deadline ps
    → IsSettled (admit_model model (some deadline) ps g).1
unfolding admit_model
admit_model-IsSettled model deadline [] g h = elim h [ ]
admit_model-IsSettled model deadline (p ∷ []) g h = ground arith
admit_model-IsSettled model deadline (p ∷ q ∷ ps) g h =
    let again =
      admit_model-IsSettled model deadline (q ∷ ps) (admit model p.now (p.meanwhile g)).0 h in
    ground arith

-- A body that begins also ends.
abbrev pub Ends : Option Sent → Type 0
Ends none = Unit
Ends (some failed) = Unit
Ends (some (answered up)) = (payload : Text) × (up.payload ≡ some payload)

abbrev IsDecided : Verdict → Type 0
IsDecided pending = ⊥
IsDecided (answers r) = Unit
IsDecided (moves_on ex) = Unit

late-IsDecided : (rq : Request) (w : World) (d : ℕ) → rq.deadline ≡ some d → IsDecided (late rq w).1
unfolding late
late-IsDecided rq w d e = rw (e) tt

module _ {V : Type 0} (j : Json V) (utf8 : Text → Option Text) where
  hand_over-IsDecided :
      (rq : Request) (permit : Permit) (t : Turn) (up : Upstream) (w : World)
      → Ends (some (answered up))
      → IsDecided (hand_over j utf8 rq permit t up w).1
  unfolding hand_over relay
  hand_over-IsDecided rq permit t up w ends = rw (ends.1) tt

  conclude-IsDecided :
      (rq : Request) (excluded : List ℕ) (b : Bool) (step : PlanStep) (permit : Permit) (t : Turn)
      (o : Option Sent) (w : World) (d : ℕ)
      → rq.deadline ≡ some d
      → Ends o
      → IsDecided (conclude j utf8 rq excluded b step permit t o w).1
  unfolding conclude
  conclude-IsDecided rq excluded b step permit t none w d e ends = late-IsDecided rq w d e
  conclude-IsDecided rq excluded b step permit t (some failed) w d e ends = ground arith
  conclude-IsDecided rq excluded b step permit t (some (answered up)) w d e ends =
      let P : World × Verdict → Type 0 = λ x. IsDecided x.1 in
      let w' = on_app (rebuff (step_model rq step) permit t.benched_at t.rebuffed_at up) w in
      on_if P (is_retryable up.status) _ (hand_over j utf8 rq permit t up w)
        (λ _.
          on_if P b (hand_over j utf8 rq permit t up w')
            (w', moves_on (excluded ++ permit.lane_idx ∷ []))
            (λ _. hand_over-IsDecided rq permit t up w' ends) (λ _. tt))
        (λ _. hand_over-IsDecided rq permit t up w ends)

  dispatched-IsDecided :
      (rq : Request) (excluded : List ℕ) (b : Bool) (step : PlanStep) (t : Turn) (a : Answer)
      (w : World) (d : ℕ)
      → rq.deadline ≡ some d
      → Ends t.sent
      → IsDecided (dispatched j utf8 rq excluded b step t a w).1
  unfolding dispatched
  dispatched-IsDecided rq excluded b step t Dispatch.waiting w d e ends = late-IsDecided rq w d e
  dispatched-IsDecided rq excluded b step t (done none) w d e ends = tt
  dispatched-IsDecided rq excluded b step t (done (some permit)) w d e ends =
      conclude-IsDecided rq excluded b step permit t t.sent _ d e ends

release-IsDecided :
    (model : Text) (x : World × Verdict) → IsDecided x.1 → IsDecided (release model x).1
unfolding release
release-IsDecided model (w, pending) h = h
release-IsDecided model (w, answers r) h = h
release-IsDecided model (w, moves_on ex) h = h

module _ {V : Type 0} (j : Json V) (utf8 : Text → Option Text) (hash : ℕ → Text → Text → ℕ) where
  gated-IsDecided :
      (rq : Request) (excluded : List ℕ) (b : Bool) (step : PlanStep) (t : Turn) (a : Admission)
      (w : World) (d : ℕ)
      → rq.deadline ≡ some d
      → IsSettled a
      → Ends t.sent
      → IsDecided (gated j utf8 hash rq excluded b step t a w).1
  unfolding gated with_permit
  gated-IsDecided rq excluded b step t Admission.waiting w d e h ends = h
  gated-IsDecided rq excluded b step t gave_up w d e h ends = tt
  gated-IsDecided rq excluded b step t admitted w d e h ends =
      release-IsDecided (step_model rq step) (with_permit j utf8 hash rq excluded b step t w) (
        dispatched-IsDecided j utf8 rq excluded b step t
          (acquire_for hash (query_of rq excluded step) t.rounds w.app.pool).1 _ d e ends)

  alive-IsLong :
      (d : ℕ) (ps : List Poll)
      → IsLong d ps
      → IsLong d (map (λ (p : Poll). record p { alive = true }) ps)
  alive-IsLong d [] h = h
  alive-IsLong d (p ∷ []) h = h
  alive-IsLong d (p ∷ q ∷ ps) h = alive-IsLong d (q ∷ ps) h

  take_step-IsDecided :
      (rq : Request) (excluded : List ℕ) (b : Bool) (step : PlanStep) (t : Turn) (w : World) (d : ℕ)
      → rq.deadline ≡ some d
      → IsLong d t.polls
      → Ends t.sent
      → IsDecided (take_step j utf8 hash rq excluded b step t w).1
  unfolding take_step
  take_step-IsDecided rq excluded b step t w d e long ends =
      gated-IsDecided rq excluded b step t (admission j utf8 hash rq step t w).1
        (set_governor (admission j utf8 hash rq step t w).0 w) d e
        (rw (e) (
          admit_model-IsSettled (step_model rq step) d
            (map (λ (p : Poll). record p { alive = true }) t.polls) w.app.governor
            (alive-IsLong d t.polls long)))
        ends

  -- A buffered request with a deadline is answered once its plan is worked off, whatever the lanes and the providers
  -- do, if the polls of each step go on until the deadline, and if each body that a provider begins also ends.
  pub walk-answers :
      (rq : Request) (plan : List PlanStep) (turns : List Turn) (excluded : List ℕ) (w : World)
      (d : ℕ)
      → rq.deadline ≡ some d
      → All (λ (t : Turn). IsLong d t.polls × Ends t.sent) turns
      → length plan ≤ length turns
      → (r : Reply) × ((walk j utf8 hash rq plan turns excluded w).1 ≡ some r)
  unfolding walk
  walk-answers rq [] turns excluded w d e long le = (_, refl)
  walk-answers rq (step ∷ plan) [] excluded w d e long le = absurd (omega arith)
  walk-answers rq (step ∷ plan) (t ∷ turns) excluded w d e long le =
      go (take_step j utf8 hash rq excluded (is_empty plan) step t w)
        (take_step-IsDecided rq excluded (is_empty plan) step t w d e long.0.0 long.0.1)
        (λ ex w'. walk-answers rq plan turns ex w' d e long.1 (omega arith))
    where
      go :
          (x : World × Verdict)
          → IsDecided x.1
          → ((ex : List ℕ) (w' : World)
              → (r : Reply) × ((walk j utf8 hash rq plan turns ex w').1 ≡ some r))
          → (r : Reply) × ((follow j utf8 hash x (walk j utf8 hash rq plan turns)).1 ≡ some r)
      go (w', answers r) h next = (r, refl)
      go (w', pending) h next = elim h [ ]
      go (w', moves_on ex) h next = next ex w'
