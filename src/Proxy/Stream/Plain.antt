-- ===== src/Proxy/Stream/Plain.antt =====
-- How often `stream_proxy` of src/proxy.rs sends its request.
use llm_rate_limit_proxy.Base.{
  ℕ, suc, ◌+◌, ◌≤◌, ◌≡◌, ◌≢◌, refl, ap, subst, arith, Bool, true, false, List, [], ◌∷◌, ◌++◌,
  Option, none, some, Text, ◌||◌, length, is_empty, map_or, is_some_and, length-append, on_if,
  on_option,
}
use llm_rate_limit_proxy.Json.{Json}
use llm_rate_limit_proxy.Dispatch
use llm_rate_limit_proxy.Dispatch.{Permit, Answer, done, acquire_for}
use llm_rate_limit_proxy.Proxy.Admission.{Admission, admitted, gave_up, admit_model}
use llm_rate_limit_proxy.Proxy.Path.{is_retryable}
use llm_rate_limit_proxy.Proxy.Bodies.{Rewriting, rewrite_model}
use llm_rate_limit_proxy.Proxy.Plan.{PlanStep}
use llm_rate_limit_proxy.Proxy.Shared.{Upstream}
use llm_rate_limit_proxy.Proxy.Walk.{rebuff, Request, Sent, failed, answered, step_model, query_of}
use llm_rate_limit_proxy.Proxy.Stream.{
  Outgoing, World, Draft, Turn, Verdict, ended, pending, moves_on, fail, give_up, late, is_rejected,
  send_loop, learn_plain, hand_over, conclude, dispatched, release, with_permit, gated, take_step,
  follow, walk, stream_proxy, on_app,
}

-- The plain retry that a draft still has.
abbrev spare : Draft → ℕ
spare d = map_or d.fallback 0 (λ _. 1)

-- No more than `n` requests are out, with the spare one of the next draft.
unfoldable IsWithin : ℕ → World × Verdict → Type 0
IsWithin n (w, ended) = length w.sent ≤ n
IsWithin n (w, pending) = length w.sent ≤ n
IsWithin n (w, moves_on d) = length w.sent + spare d ≤ n

late-IsWithin :
    (n : ℕ) (rq : Request) (gone : Bool) (w : World)
    → length w.sent ≤ n
    → IsWithin n (late rq gone w)
unfolding late
late-IsWithin n rq gone w h =
    on_if (IsWithin n) (is_some_and rq.deadline (λ d. true) || gone) (give_up rq w) (w, pending)
      (λ e. unfold give_up IsWithin in h) (λ e. unfold IsWithin in h)

unfoldable IsSpent : ℕ → (World × Draft) × Option Sent → Type 0
IsSpent n x = length x.0.0.sent + spare x.0.1 ≤ n

IsSpent-le : (m n : ℕ) (x : (World × Draft) × Option Sent) → m ≤ n → IsSpent m x → IsSpent n x
unfolding IsSpent
IsSpent-le m n x le h = omega (arith, h)

length-snoc {ℓ} : {A : Type ℓ} (xs : List A) (x : A) → length (xs ++ x ∷ []) ≡ suc (length xs)
length-snoc xs x = omega (arith, length-append xs (x ∷ []))

-- The rounds of the inner loop: one, and one more for the spare.
send_loop-IsSpent :
    {V : Type 0} (j : Json V) (rw' : Rewriting V) (permit : Permit) (step : PlanStep)
    (rs : List (Option Sent)) (d : Draft) (w : World)
    → IsSpent (suc (length w.sent) + spare d) (send_loop j rw' permit step rs d w)
unfolding send_loop
send_loop-IsSpent j rw' permit step [] d w = unfold IsSpent in omega arith
send_loop-IsSpent j rw' permit step (r ∷ rs) d w =
    let o : Outgoing = record {
      permit = permit;
      step = step;
      body = rewrite_model j rw' d.body step.model;
    } in
    let w' : World = record w { sent = w.sent ++ o ∷ [] } in
    let n = suc (length w.sent) + spare d in
    let longer = length-snoc w.sent o in
    let stays : IsSpent n ((w', d), r) = unfold IsSpent in omega (arith, longer) in
    on_option (IsSpent n) d.fallback ((w', d), r) _ (λ e. stays)
      (λ plain e.
        let d' : Draft = record d { body = plain; fallback = none; retried_plain = true } in
        let one : spare d ≡ 1 = ap (λ (f : Option Text). map_or f 0 (λ _. 1)) e in
        on_if (IsSpent n) (is_rejected r) (send_loop j rw' permit step rs d' w') ((w', d), r)
          (λ h.
            IsSpent-le (suc (length w'.sent) + 0) n (send_loop j rw' permit step rs d' w')
              (omega (arith, longer, one)) (send_loop-IsSpent j rw' permit step rs d' w'))
          (λ h. stays))

hand_over-sent :
    {V : Type 0} (j : Json V) (rw' : Rewriting V) (lossy : Text → Text) (rq : Request) (d : Draft)
    (permit : Permit) (t : Turn) (up : Upstream) (w : World)
    → (hand_over j rw' lossy rq d permit t up w).0.sent ≡ w.sent
unfolding hand_over learn_plain
hand_over-sent j rw' lossy rq d permit t up w = ground arith

ended-IsWithin :
    (n : ℕ) (x : World × Verdict)
    → length x.0.sent ≤ n
    → ((d : Draft) → x.1 ≢ moves_on d)
    → IsWithin n x
unfolding IsWithin
ended-IsWithin n (w, ended) h f = h
ended-IsWithin n (w, pending) h f = h
ended-IsWithin n (w, moves_on d) h f = absurd (f d refl)

module _ {V : Type 0} (j : Json V) (rw' : Rewriting V) (lossy : Text → Text) where
  hand_over-IsWithin :
      (n : ℕ) (rq : Request) (d : Draft) (permit : Permit) (t : Turn) (up : Upstream) (w : World)
      → length w.sent ≤ n
      → IsWithin n (hand_over j rw' lossy rq d permit t up w)
  hand_over-IsWithin n rq d permit t up w h =
      ended-IsWithin n (hand_over j rw' lossy rq d permit t up w)
        (rw (hand_over-sent j rw' lossy rq d permit t up w) h)
        (λ d' e. unfold hand_over in ground arith)

  conclude-IsWithin :
      (n : ℕ) (rq : Request) (b : Bool) (step : PlanStep) (permit : Permit) (t : Turn)
      (x : (World × Draft) × Option Sent)
      → IsSpent n x
      → IsWithin n (conclude j rw' lossy rq b step permit t x)
  unfolding conclude IsSpent
  conclude-IsWithin n rq b step permit t ((w, d), none) h = late-IsWithin n rq false w (omega arith)
  conclude-IsWithin n rq true step permit t ((w, d), some failed) h =
      unfold IsWithin fail in omega arith
  conclude-IsWithin n rq false step permit t ((w, d), some failed) h = unfold IsWithin in h
  conclude-IsWithin n rq b step permit t ((w, d), some (answered up)) h =
      on_if (IsWithin n) (is_retryable up.status) _ (hand_over j rw' lossy rq d permit t up w)
        (λ e.
          on_if (IsWithin n) b _
            (
              on_app (rebuff (step_model rq step) permit t.benched_at t.rebuffed_at up) w,
              moves_on (record d { excluded = d.excluded ++ permit.lane_idx ∷ [] }),
            )
            (λ e'. hand_over-IsWithin n rq d permit t up _ (omega arith))
            (λ e'. unfold IsWithin in h))
        (λ e. hand_over-IsWithin n rq d permit t up w (omega arith))

  dispatched-IsWithin :
      (rq : Request) (b : Bool) (step : PlanStep) (t : Turn) (a : Answer) (d : Draft) (w : World)
      → IsWithin (suc (length w.sent) + spare d) (dispatched j rw' lossy rq b step t a d w)
  unfolding dispatched
  dispatched-IsWithin rq b step t Dispatch.waiting d w =
      late-IsWithin (suc (length w.sent) + spare d) rq t.gone w (omega arith)
  dispatched-IsWithin rq b step t (done none) d w = unfold IsWithin in omega arith
  dispatched-IsWithin rq b step t (done (some permit)) d w =
      conclude-IsWithin (suc (length w.sent) + spare d) rq b step permit t _
        (send_loop-IsSpent j rw' permit step t.results d _)

release-IsWithin :
    (n : ℕ) (model : Text) (x : World × Verdict) → IsWithin n x → IsWithin n (release model x)
unfolding release IsWithin
release-IsWithin n model (w, pending) h = h
release-IsWithin n model (w, ended) h = h
release-IsWithin n model (w, moves_on d) h = h

module _ {V : Type 0} (j : Json V) (rw' : Rewriting V) (lossy : Text → Text)
    (hash : ℕ → Text → Text → ℕ) where
  take_step-IsWithin :
      (rq : Request) (b : Bool) (step : PlanStep) (t : Turn) (d : Draft) (w : World)
      → IsWithin (suc (length w.sent) + spare d) (take_step j rw' lossy hash rq b step t d w)
  unfolding take_step
  take_step-IsWithin rq b step t d w =
      go (admit_model (step_model rq step) rq.deadline t.polls w.app.governor).1 _ refl
    where
      go :
          (a : Admission) (w' : World)
          → w'.sent ≡ w.sent
          → IsWithin (suc (length w.sent) + spare d) (gated j rw' lossy hash rq b step t a d w')
      go Admission.waiting w' e = unfold gated IsWithin in rw (e) (omega arith)
      go gave_up w' e = unfold gated IsWithin give_up in rw (e) (omega arith)
      go admitted w' e =
          unfold gated in
          release-IsWithin (suc (length w.sent) + spare d) (step_model rq step)
            (with_permit j rw' lossy hash rq b step t d w')
            (unfold with_permit in
              subst
                (λ (s : List Outgoing).
                  IsWithin (suc (length s) + spare d)
                    (with_permit j rw' lossy hash rq b step t d w'))
                e
                (dispatched-IsWithin j rw' lossy rq b step t
                  (acquire_for hash (query_of rq d.excluded step) t.rounds w'.app.pool).1 d _))

  walk-within :
      (rq : Request) (plan : List PlanStep) (turns : List Turn) (d : Draft) (w : World)
      → length (walk j rw' lossy hash rq plan turns d w).0.sent
        ≤ length w.sent + length plan + spare d
  unfolding walk
  walk-within rq [] turns d w = unfold fail in omega arith
  walk-within rq (step ∷ plan) [] d w = omega arith
  walk-within rq (step ∷ plan) (t ∷ turns) d w =
      go (take_step j rw' lossy hash rq (is_empty plan) step t d w)
        (unfold IsWithin in take_step-IsWithin rq (is_empty plan) step t d w)
        (λ d' w'. walk-within rq plan turns d' w')
    where
      go :
          (x : World × Verdict)
          → IsWithin (suc (length w.sent) + spare d) x
          → ((d' : Draft) (w' : World)
              → length (walk j rw' lossy hash rq plan turns d' w').0.sent
                ≤ length w'.sent + length plan + spare d')
          → length (follow j rw' lossy hash x (walk j rw' lossy hash rq plan turns)).0.sent
            ≤ length w.sent + length (step ∷ plan) + spare d
      go (w', ended) h next = unfold IsWithin in omega arith
      go (w', pending) h next = unfold IsWithin in omega arith
      go (w', moves_on d') h next =
          let left : length w'.sent + spare d' ≤ suc (length w.sent) + spare d =
            unfold IsWithin in h in
          omega (arith, left, next d' w')

  -- A streamed request goes out at most once for each step of its plan, and once more in all if
  -- `stream_options` was added to it, however the providers answer.
  pub stream_proxy-within :
      (rq : Request) (present : Bool) (body : Text) (fallback : Option Text) (plan : List PlanStep)
      (turns : List Turn) (w : World)
      → length (stream_proxy j rw' lossy hash rq present body fallback plan turns w).0.sent
        ≤ length w.sent + length plan + map_or fallback 0 (λ _. 1)
  unfolding stream_proxy
  stream_proxy-within rq true body fallback plan turns w =
      walk-within rq plan turns
        (record { body = body; fallback = fallback; retried_plain = false; excluded = [] }) _
  stream_proxy-within rq false body fallback plan turns w = omega arith
