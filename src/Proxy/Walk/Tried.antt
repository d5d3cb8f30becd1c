-- ===== src/Proxy/Walk/Tried.antt =====
-- The requests that the walk of src/proxy.rs sends: which lanes, in which order, and how many.
use llm_rate_limit_proxy.Base.{
  ℕ, ◌≡◌, ◌≢◌, refl, sym, ap, subst, ◌∙◌, arith, Bool, List, [], ◌∷◌, ◌++◌, Option, none, some,
  Text, map, is_empty, All, append-nil, append_assoc,
}
use llm_rate_limit_proxy.Dispatch.Fits.{Fits, acquire_for-Fits}
use llm_rate_limit_proxy.Json.{Json}
use llm_rate_limit_proxy.Dispatch
use llm_rate_limit_proxy.Dispatch.{Query, Permit, Answer, done, acquire_for}
use llm_rate_limit_proxy.Proxy.Plan.{PlanStep}
use llm_rate_limit_proxy.Proxy.Admission.{Admission, admitted, gave_up}
use llm_rate_limit_proxy.Proxy.Walk.{
  Request, Sent, failed, answered, Turn, Outgoing, World, Verdict, answers, moves_on, pending, late,
  query_of, step_model, hand_over, conclude, dispatched, release, with_permit, gated, take_step,
  follow, walk, admission, set_governor,
}

-- A walk over the plan as requests sent: a step is passed over, or one permit that fits it is used, whose
-- lane no later step may use.
pub data Rotates (rq : Request) : List ℕ → List PlanStep → List Outgoing → Type 0 where
  ends : {excluded : List ℕ} {plan : List PlanStep} → Rotates rq excluded plan []
  passes :
      {excluded : List ℕ} {plan : List PlanStep} {os : List Outgoing} (step : PlanStep)
      → Rotates rq excluded plan os
      → Rotates rq excluded (step ∷ plan) os
  tries :
      {excluded : List ℕ} {plan : List PlanStep} {os : List Outgoing} (step : PlanStep)
      (permit : Permit)
      → Fits (query_of rq excluded step) permit
      → Rotates rq (excluded ++ permit.lane_idx ∷ []) plan os
      → Rotates rq excluded (step ∷ plan) (record { permit = permit; step = step } ∷ os)

-- What one step sends, and which lanes it excludes from the next.
pub data Stepped (rq : Request) (excluded : List ℕ) (step : PlanStep) (w : World)
    (x : World × Verdict) : Type 0 where
  quiet :
      x.0.sent ≡ w.sent
      → ((ex : List ℕ) → x.1 ≡ moves_on ex → ex ≡ excluded)
      → Stepped rq excluded step w x
  sends :
      (permit : Permit)
      → Fits (query_of rq excluded step) permit
      → x.0.sent ≡ w.sent ++ record { permit = permit; step = step } ∷ []
      → ((ex : List ℕ) → x.1 ≡ moves_on ex → ex ≡ excluded ++ permit.lane_idx ∷ [])
      → Stepped rq excluded step w x

late-Stepped :
    (rq : Request) (excluded : List ℕ) (step : PlanStep) (w w' : World)
    → w'.sent ≡ w.sent
    → Stepped rq excluded step w (late rq w')
unfolding late
late-Stepped rq excluded step w w' e = quiet (ground arith) (λ ex h. ground arith)

module _ {V : Type 0} (j : Json V) (utf8 : Text → Option Text) where
  conclude-sent :
      (rq : Request) (excluded : List ℕ) (b : Bool) (step : PlanStep) (permit : Permit) (t : Turn)
      (o : Option Sent) (w : World)
      → ((conclude j utf8 rq excluded b step permit t o w).0.sent ≡ w.sent)
        × ((ex : List ℕ)
            → (conclude j utf8 rq excluded b step permit t o w).1 ≡ moves_on ex
            → ex ≡ excluded ++ permit.lane_idx ∷ [])
  unfolding conclude late hand_over
  conclude-sent rq excluded b step permit t none w = (ground arith, λ ex h. ground arith)
  conclude-sent rq excluded b step permit t (some failed) w = (ground arith, λ ex h. ground arith)
  conclude-sent rq excluded b step permit t (some (answered up)) w =
      (ground arith, λ ex h. ground arith)

  dispatched-Stepped :
      (rq : Request) (excluded : List ℕ) (b : Bool) (step : PlanStep) (t : Turn) (a : Answer)
      (w w' : World)
      → w'.sent ≡ w.sent
      → ((permit : Permit) → a ≡ done (some permit) → Fits (query_of rq excluded step) permit)
      → Stepped rq excluded step w (dispatched j utf8 rq excluded b step t a w')
  unfolding dispatched
  dispatched-Stepped rq excluded b step t Dispatch.waiting w w' e fits =
      late-Stepped rq excluded step w w' e
  dispatched-Stepped rq excluded b step t (done none) w w' e fits = quiet e (λ ex h. ground arith)
  dispatched-Stepped rq excluded b step t (done (some permit)) w w' e fits =
      let (sent, ex) = conclude-sent rq excluded b step permit t t.sent _ in
      sends permit (fits permit refl)
        (sent ∙ ap (λ (os : List Outgoing). os ++ record { permit = permit; step = step } ∷ []) e)
        ex

release-Stepped :
    {rq : Request} {excluded : List ℕ} {step : PlanStep} {w : World} (model : Text)
    (x : World × Verdict)
    → Stepped rq excluded step w x
    → Stepped rq excluded step w (release model x)
unfolding release
release-Stepped model (w', pending) s = s
release-Stepped model (w', answers r) (quiet e f) = quiet e f
release-Stepped model (w', answers r) (sends p f e g) = sends p f e g
release-Stepped model (w', moves_on x) (quiet e f) = quiet e f
release-Stepped model (w', moves_on x) (sends p f e g) = sends p f e g

module _ {V : Type 0} (j : Json V) (utf8 : Text → Option Text) (hash : ℕ → Text → Text → ℕ) where
  gated-Stepped :
      (rq : Request) (excluded : List ℕ) (b : Bool) (step : PlanStep) (t : Turn) (a : Admission)
      (w w' : World)
      → w'.sent ≡ w.sent
      → Stepped rq excluded step w (gated j utf8 hash rq excluded b step t a w')
  unfolding gated with_permit
  gated-Stepped rq excluded b step t Admission.waiting w w' e = quiet e (λ ex h. ground arith)
  gated-Stepped rq excluded b step t gave_up w w' e = quiet e (λ ex h. ground arith)
  gated-Stepped rq excluded b step t admitted w w' e =
      release-Stepped (step_model rq step) (with_permit j utf8 hash rq excluded b step t w') (
        dispatched-Stepped j utf8 rq excluded b step t _ w _ e
          (λ permit g. acquire_for-Fits hash (query_of rq excluded step) t.rounds w'.app.pool g))

  take_step-Stepped :
      (rq : Request) (excluded : List ℕ) (b : Bool) (step : PlanStep) (t : Turn) (w : World)
      → Stepped rq excluded step w (take_step j utf8 hash rq excluded b step t w)
  unfolding take_step
  take_step-Stepped rq excluded b step t w =
      gated-Stepped rq excluded b step t (admission j utf8 hash rq step t w).1 w
        (set_governor (admission j utf8 hash rq step t w).0 w) refl

  -- Every walk is a rotation over the plan, whatever others do and however the providers answer.
  pub walk-Rotates :
      (rq : Request) (plan : List PlanStep) (turns : List Turn) (excluded : List ℕ) (w : World)
      → (os : List Outgoing) × ((walk j utf8 hash rq plan turns excluded w).0.sent ≡ w.sent ++ os)
        × Rotates rq excluded plan os
  unfolding walk
  walk-Rotates rq [] turns excluded w = ([], sym (append-nil w.sent), ends)
  walk-Rotates rq (step ∷ plan) [] excluded w = ([], sym (append-nil w.sent), ends)
  walk-Rotates rq (step ∷ plan) (t ∷ turns) excluded w =
      go (take_step j utf8 hash rq excluded (is_empty plan) step t w)
        (take_step-Stepped rq excluded (is_empty plan) step t w)
        (λ ex w'. walk-Rotates rq plan turns ex w')
    where
      go :
          (x : World × Verdict)
          → Stepped rq excluded step w x
          → ((ex : List ℕ) (w' : World)
              → (os : List Outgoing) × ((walk j utf8 hash rq plan turns ex w').0.sent
                  ≡ w'.sent ++ os)
                × Rotates rq ex plan os)
          → (os : List Outgoing) × ((follow j utf8 hash x (walk j utf8 hash rq plan turns)).0.sent
              ≡ w.sent ++ os)
            × Rotates rq excluded (step ∷ plan) os
      go (w', answers r) (quiet e f) next = ([], e ∙ sym (append-nil w.sent), ends)
      go (w', pending) (quiet e f) next = ([], e ∙ sym (append-nil w.sent), ends)
      go (w', answers r) (sends p fit e f) next = (_, e, tries step p fit ends)
      go (w', pending) (sends p fit e f) next = (_, e, tries step p fit ends)
      go (w', moves_on ex) (quiet e f) next =
          let (os, e', r) = next ex w' in
          (
            os,
            e' ∙ ap (λ (s : List Outgoing). s ++ os) e,
            passes step (subst (λ (x : List ℕ). Rotates rq x plan os) (f ex refl) r),
          )
      go (w', moves_on ex) (sends p fit e f) next =
          let (os, e', r) = next ex w' in
          let o : Outgoing = record { permit = p; step = step } in
          (
            o ∷ os,
            e' ∙ ap (λ (s : List Outgoing). s ++ os) e ∙ append_assoc w.sent (o ∷ []) os,
            tries step p fit (subst (λ (x : List ℕ). Rotates rq x plan os) (f ex refl) r),
          )

abbrev pub lanes : List Outgoing → List ℕ
lanes os = map (λ (o : Outgoing). o.permit.lane_idx) os

abbrev pub Distinct : List ℕ → Type 0
Distinct [] = Unit
Distinct (x ∷ xs) = All (λ y. x ≢ y) xs × Distinct xs

-- Of the provider that the step names, if it names one, and of the client's protocol.
pub record IsRouted (rq : Request) (o : Outgoing) : Type 0 where
  pub provider : (name : Text) → o.step.provider ≡ some name → o.permit.provider ≡ name
  pub protocol : o.permit.protocol ≡ rq.wire
