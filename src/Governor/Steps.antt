-- ===== src/Governor/Steps.antt =====
-- src/governor.rs model by model: a call's effect on one model's state is a function of that state.
use llm_rate_limit_proxy.Base.{
  ℕ, ◌≡◌, ◌⊎◌, inl, inr, refl, sym, ap, ◌∙◌, true, false, Option, none, some, if◌then◌else◌,
  Bool-cases, Text, same, same_iff, map_or,
}
use llm_rate_limit_proxy.Base.Assoc.{get, insert}
use llm_rate_limit_proxy.Governor.{
  Governor, entry, note_rebuff, pressured, limit, admit_with, drop_permit,
}
use llm_rate_limit_proxy.Governor.State.{
  ModelState, default_state, note_rebuff_state, limit_state, pressured_state, try_enter, leave,
  grow,
}
use llm_rate_limit_proxy.Governor.Calls.{
  get-map, Call, rebuffed, asked, surveyed, entered, dropped, apply, entry-insert,
}

-- The call's effect on the state of `model` alone.
unfoldable pub step : Text → Call → ModelState → ModelState
step model (rebuffed m lane now) s = if same m model then note_rebuff_state lane now s else s
step model (asked m now) s = if same m model then (limit_state now s).0 else s
step model (surveyed now) s = pressured_state now s
step model (entered cap m) s = if same m model then (try_enter cap s).0 else s
step model (dropped m) s = if same m model then leave s else s

pub entry-update :
    (f : ModelState → ModelState) (model m : Text) (g : Governor)
    → entry model (insert m (f (entry m g)) g)
      ≡ (if same m model then f (entry model g) else entry model g)
entry-update f model m g = entry-insert model m (f (entry m g)) g ∙ go (Bool-cases (same m model))
  where
    go :
        ((same m model ≡ true) ⊎ (same m model ≡ false))
        → (if same m model then f (entry m g) else entry model g)
          ≡ (if same m model then f (entry model g) else entry model g)
    go (inl e) = rw (e) (ap (λ (k : Text). f (entry k g)) ((same_iff m model).0 e))
    go (inr e) = rw (e) refl

-- A method that leaves an unknown model out of the map does as one that would enter it by default.
entry-touch :
    (f : ModelState → ModelState) (model m : Text) (g : Governor) (o : Option ModelState)
    → f default_state ≡ default_state
    → get m g ≡ o
    → entry model (elim o as (λ _. Governor) [ none ↦ g | some s ↦ insert m (f s) g ])
      ≡ (if same m model then f (entry model g) else entry model g)
entry-touch f model m g none d e = go (Bool-cases (same m model))
  where
    go :
        ((same m model ≡ true) ⊎ (same m model ≡ false))
        → entry model g ≡ (if same m model then f (entry model g) else entry model g)
    go (inl q) =
        let found : entry model g ≡ default_state =
          ap (λ (k : Text). entry k g) (sym ((same_iff m model).0 q))
          ∙ ap (λ (o : Option ModelState). map_or o default_state (λ s. s)) e in
        rw (q) (found ∙ sym d ∙ ap f (sym found))
    go (inr q) = rw (q) refl
entry-touch f model m g (some s) d e =
    ap (λ (x : ModelState). entry model (insert m (f x) g))
      (sym (ap (λ (o : Option ModelState). map_or o default_state (λ s. s)) e))
    ∙ entry-update f model m g

entry-asked :
    (model m : Text) (now : ℕ) (g : Governor) (o : Option ModelState)
    → get m g ≡ o
    → entry model
        (elim o as (λ _. Governor × ℕ) [
          | none ↦ (g, 0)
          | some s ↦ (insert m (limit_state now s).0 g, (limit_state now s).1)
        ]).0
      ≡ (if same m model then (limit_state now (entry model g)).0 else entry model g)
unfolding limit_state grow
entry-asked model m now g none e = entry-touch (λ s. (limit_state now s).0) model m g none refl e
entry-asked model m now g (some s) e =
    entry-touch (λ s. (limit_state now s).0) model m g (some s) refl e

entry-survey :
    (model : Text) (now : ℕ) (g : Governor) (o : Option ModelState)
    → get model g ≡ o
    → map_or (elim o [ none ↦ none | some s ↦ some (pressured_state now s) ]) default_state (λ s. s)
      ≡ pressured_state now (map_or o default_state (λ s. s))
unfolding pressured_state
entry-survey model now g none e = refl
entry-survey model now g (some s) e = refl

-- What a call does to a model depends on that model's state alone, and a call about another model,
-- other than a survey of all, leaves it as it is.
pub entry-apply :
    (model : Text) (c : Call) (g : Governor)
    → entry model (apply c g) ≡ step model c (entry model g)
unfolding apply step note_rebuff limit pressured admit_with drop_permit leave
entry-apply model (rebuffed m lane now) g = entry-update (note_rebuff_state lane now) model m g
entry-apply model (asked m now) g = entry-asked model m now g (get m g) refl
entry-apply model (surveyed now) g =
    ap (λ (o : Option ModelState). map_or o default_state (λ s. s))
      (get-map (pressured_state now) model g)
    ∙ entry-survey model now g (get model g) refl
entry-apply model (entered cap m) g = entry-update (λ s. (try_enter cap s).0) model m g
entry-apply model (dropped m) g = entry-touch leave model m g (get m g) refl refl
