-- ===== src/Proxy/Plan.antt =====
-- `resolve_plan` and `bench_lane` of src/proxy.rs.
use llm_rate_limit_proxy.Base.{
  is_empty, In, In-All, All, false, append_assoc, ℕ, zero, suc, ◌+◌, ◌-◌, ◌≤◌, ◌≡◌, refl, sym, ap,
  subst, ◌∙◌, arith, List, [], ◌∷◌, ◌++◌, map, Option, none, some, Text, same, find, length,
  length-append, length-map, replicate, find-In, min, max, unwrap_or, get_elem?, set,
}
use llm_rate_limit_proxy.Config.{Alias, AliasTarget}
use llm_rate_limit_proxy.Pool.Lane
use llm_rate_limit_proxy.Pool.Lanes.{Pool}
use llm_rate_limit_proxy.Proxy.Path.{retry_after}

pub record PlanStep : Type 0 where
  pub provider : Option Text
  pub model : Option Text

abbrev pub anywhere_step : PlanStep
anywhere_step = record { provider = none; model = none }

unfoldable pub alias_named : Option Text → List Alias → Option Alias
alias_named none aliases = none
alias_named (some name) aliases = find (λ a. same a.name name) aliases

unfoldable pub alias_plan : Alias → List PlanStep
alias_plan a =
    map (λ (t : AliasTarget). record { provider = some t.provider; model = some t.model }) a.targets

-- `pool_len.clamp(1, 4).saturating_sub(steps.len()).max(1)`.
unfoldable pub anywhere : ℕ → ℕ → ℕ
anywhere pool_len steps = max (min (max pool_len 1) 4 - steps) 1

unfoldable pub open_plan : ℕ → List Text → List PlanStep
unfolding anywhere
open_plan pool_len offering =
    map (λ (p : Text). record { provider = some p; model = none }) offering
    ++ replicate (anywhere pool_len (length offering)) anywhere_step

unfoldable pub resolve_plan : Option Text → List Alias → ℕ → List Text → List PlanStep
unfolding alias_named alias_plan open_plan
resolve_plan model aliases pool_len offering = elim (alias_named model aliases) [
  | some a ↦ alias_plan a
  | none ↦ open_plan pool_len offering
]

abbrev pub default_bench : ℕ
default_bench = 5000

-- `value` is the `Retry-After` header.
unfoldable pub bench_lane : Pool → ℕ → Option Text → ℕ → Pool
bench_lane p idx value now = elim (get_elem? p.lanes idx) [
  | none ↦ p
  | some l ↦ record p {
    lanes = set p.lanes idx (Lane.bench l (now + unwrap_or (retry_after value) default_bench));
  }
]

length-replicate : (n : ℕ) (s : PlanStep) → length (replicate n s) ≡ n
length-replicate zero s = refl
length-replicate (suc n) s = ap suc (length-replicate n s)

replicate-snoc : (n : ℕ) (s : PlanStep) → replicate (suc n) s ≡ replicate n s ++ s ∷ []
replicate-snoc zero s = refl
replicate-snoc (suc n) s = ap (λ xs. s ∷ xs) (replicate-snoc n s)

anywhere-shape : (pool_len n : ℕ) → (k : ℕ) × (anywhere pool_len n ≡ suc k)
unfolding anywhere
anywhere-shape pool_len n = (max (min (max pool_len 1) 4 - n) 1 - 1, omega arith)

open_plan-shape :
    (pool_len : ℕ) (offering : List Text)
    → ((k : ℕ) × (open_plan pool_len offering
          ≡ (map (λ (p : Text). record { provider = some p; model = none }) offering
              ++ replicate k anywhere_step)
            ++ anywhere_step ∷ []))
unfolding open_plan
open_plan-shape pool_len offering =
    let (k, e) = anywhere-shape pool_len (length offering) in
    let front : List PlanStep =
      map (λ (p : Text). record { provider = some p; model = none }) offering in
    (
      k,
      ap (λ n. front ++ replicate n anywhere_step) e
          ∙ ap (λ (xs : List PlanStep). front ++ xs) (replicate-snoc k anywhere_step)
          ∙ sym (append_assoc front (replicate k anywhere_step) (anywhere_step ∷ [])),
    )

length-open_plan :
    (pool_len : ℕ) (offering : List Text)
    → length (open_plan pool_len offering) ≤ max 4 (length offering + 1)
unfolding open_plan anywhere
length-open_plan pool_len offering =
    let front : List PlanStep =
      map (λ (p : Text). record { provider = some p; model = none }) offering in
    let n = anywhere pool_len (length offering) in
    omega (
      arith,
      length-append front (replicate n anywhere_step),
      length-replicate n anywhere_step,
      length-map {B = PlanStep} (λ (p : Text). record { provider = some p; model = none }) offering,
    )

resolve_plan-none :
    (model : Option Text) (aliases : List Alias) (pool_len : ℕ) (offering : List Text)
    → alias_named model aliases ≡ none
    → resolve_plan model aliases pool_len offering ≡ open_plan pool_len offering
unfolding resolve_plan
resolve_plan-none model aliases pool_len offering h =
    ap (λ (o : Option Alias). elim o [ some a ↦ alias_plan a | none ↦ open_plan pool_len offering ])
      h

-- For a model that no alias names, the plan tries the providers that offer it, in their order, then any
-- lane at least once, at the end; it has no more steps than four, or one more than there are such
-- providers.
pub resolve_plan-open :
    (model : Option Text) (aliases : List Alias) (pool_len : ℕ) (offering : List Text)
    → alias_named model aliases ≡ none
    → ((k : ℕ) × (resolve_plan model aliases pool_len offering
          ≡ (map (λ (p : Text). record { provider = some p; model = none }) offering
              ++ replicate k anywhere_step)
            ++ anywhere_step ∷ []))
      × (length (resolve_plan model aliases pool_len offering) ≤ max 4 (length offering + 1))
resolve_plan-open model aliases pool_len offering h =
    let e = resolve_plan-none model aliases pool_len offering h in
    let (k, shape) = open_plan-shape pool_len offering in
    (
      (k, e ∙ shape),
      subst (λ (xs : List PlanStep). length xs ≤ max 4 (length offering + 1)) (sym e)
          (length-open_plan pool_len offering),
    )

alias_named-In :
    (model : Option Text) (aliases : List Alias) {a : Alias}
    → alias_named model aliases ≡ some a
    → In a aliases
unfolding alias_named
alias_named-In none aliases h = absurd (ground arith)
alias_named-In (some name) aliases h = find-In (λ a. same a.name name) aliases h

alias_plan-full :
    (a : Alias) (ts : List AliasTarget)
    → a.targets ≡ ts
    → is_empty ts ≡ false
    → is_empty (alias_plan a) ≡ false
unfolding alias_plan
alias_plan-full a [] e h = absurd (ground arith)
alias_plan-full a (t ∷ ts) e h = rw (e) refl

append-full : (xs : List PlanStep) (s : PlanStep) → is_empty (xs ++ s ∷ []) ≡ false
append-full [] s = refl
append-full (x ∷ xs) s = refl

-- Where every alias has a target, as the configuration keeps it, no request is left without a step to try.
pub resolve_plan-full :
    (model : Option Text) (aliases : List Alias) (pool_len : ℕ) (offering : List Text)
    → All (λ (a : Alias). is_empty a.targets ≡ false) aliases
    → is_empty (resolve_plan model aliases pool_len offering) ≡ false
unfolding resolve_plan
resolve_plan-full model aliases pool_len offering h = go (alias_named model aliases) refl
  where
    go :
        (o : Option Alias)
        → alias_named model aliases ≡ o
        → is_empty (elim o as (λ _. List PlanStep) [
          | some a ↦ alias_plan a
          | none ↦ open_plan pool_len offering
        ])
          ≡ false
    go none e =
        let (k, shape) = open_plan-shape pool_len offering in
        subst (λ (xs : List PlanStep). is_empty xs ≡ false) (sym shape)
          (append-full _ anywhere_step)
    go (some a) e =
        alias_plan-full a a.targets refl
          (In-All (λ (a : Alias). is_empty a.targets ≡ false) h (alias_named-In model aliases e))
