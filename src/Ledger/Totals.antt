-- ===== src/Ledger/Totals.antt =====
-- Running `absorb` twice on the same counters counts nothing twice.
use llm_rate_limit_proxy.Base.{
  ◌≡◌, ◌⊎◌, inl, inr, refl, sym, ap, ◌∙◌, Bool, true, false, List, [], ◌∷◌, some, Text, same,
  if◌then◌else◌, unwrap_or, Bool-cases,
}
use llm_rate_limit_proxy.Base.Assoc.{get, insert, get-insert}
use llm_rate_limit_proxy.Ledger.{Usage, no_usage, plus, Ledger, fold, absorb}

-- What the loop makes of a model is what was there, if the counters do not name it, and is fixed otherwise.
get-fold_cases :
    (baseline current : List (Text × Usage)) (model : Text)
    → ((a : List (Text × Usage)) → get model (fold baseline current a) ≡ get model a)
      ⊎ ((a b : List (Text × Usage))
          → get model (fold baseline current a) ≡ get model (fold baseline current b))
unfolding fold
get-fold_cases baseline [] model = inl (λ a. refl)
get-fold_cases baseline ((m, now) ∷ rest) model = elim (get-fold_cases baseline rest model) [
  | inr same_all ↦ inr (λ a b. same_all _ _)
  | inl keeps ↦ elim (Bool-cases (same m model)) [
    | inl e ↦ inr (λ a b. keeps _ ∙ named m now a e ∙ sym (keeps _ ∙ named m now b e))
    | inr e ↦ inl (λ a. keeps _ ∙ other m now a e)
  ]
]
  where
    v : Text → Usage → Usage
    v m now = plus (unwrap_or (get m baseline) no_usage) now

    named :
        (m : Text) (now : Usage) (a : List (Text × Usage))
        → same m model ≡ true
        → get model (insert m (v m now) a) ≡ some (v m now)
    named m now a e =
        get-insert m model (v m now) a ∙ ap (λ b. if b then some (v m now) else get model a) e

    other :
        (m : Text) (now : Usage) (a : List (Text × Usage))
        → same m model ≡ false
        → get model (insert m (v m now) a) ≡ get model a
    other m now a e =
        get-insert m model (v m now) a ∙ ap (λ b. if b then some (v m now) else get model a) e

-- To absorb the same counters again changes no model's total.
pub absorb-twice :
    (writes again : Bool) (current : List (Text × Usage)) (l : Ledger) (model : Text)
    → get model (absorb again current (absorb writes current l)).live
      ≡ get model (absorb writes current l).live
unfolding absorb
absorb-twice writes again current l model = elim (get-fold_cases l.baseline current model) [
  | inl keeps ↦ keeps _
  | inr same_all ↦ same_all _ _
]
