-- ===== src/Governor.antt =====
-- src/governor.rs: the per-model concurrency gate. Times count milliseconds; a duration between two
-- instants stops at zero, as `Instant::duration_since` does. Each method holds the one mutex for its
-- whole body, but `admit`, which takes it twice: `admit_with` is its second half.
pub mod State
pub mod Evidence
pub mod Calls
pub mod Steps
pub mod Caps
pub mod Permits
mod Examples
use llm_rate_limit_proxy.Base.{
  ℕ, ◌-◌, Bool, true, false, List, [], ◌∷◌, Option, none, some, Text, ltb, leb, ◌==◌, if◌then◌else◌,
  ◌&&◌, ◌||◌, map, filter_map, map_or,
}
use llm_rate_limit_proxy.Base.Assoc.{get, insert}
use llm_rate_limit_proxy.Governor.State.{
  ModelState, default_state, note_rebuff_state, limit_state, pressured_state, try_enter, leave,
}

-- `models`: the map behind the mutex.
abbrev pub Governor : Type 0
Governor = List (Text × ModelState)

abbrev pub entry : Text → Governor → ModelState
entry model g = map_or (get model g) default_state (λ s. s)

unfoldable pub note_rebuff : Text → ℕ → ℕ → Governor → Governor
note_rebuff model lane now g = insert model (note_rebuff_state lane now (entry model g)) g

-- An unknown model is ungoverned, and stays out of the map.
unfoldable pub limit : Text → ℕ → Governor → Governor × ℕ
limit model now g = elim (get model g) [
  | none ↦ (g, 0)
  | some s ↦ let next = limit_state now s in (insert model next.0 g, next.1)
]

-- A model under a cap, as reported to operators.
pub record ModelPressure : Type 0 where
  pub model : Text
  pub limit : ℕ
  pub inflight : ℕ

unfoldable pub report : Text → ModelState → Option ModelPressure
report model s =
    if ltb 0 s.limit
    then some (record { model = model; limit = s.limit; inflight = s.inflight })
    else none

-- The reports before they are sorted by name.
unfoldable pub pressured : ℕ → Governor → Governor × List ModelPressure
unfolding report
pressured now g =
    let g' = map (λ (e : Text × ModelState). (e.0, pressured_state now e.1)) g in
    (g', filter_map (λ (e : Text × ModelState). report e.0 e.1) g')

unfoldable pub inflight : Text → Governor → ℕ
inflight model g = map_or (get model g) 0 (λ s. s.inflight)

unfoldable pub admit_with : ℕ → Text → Governor → Governor × Bool
admit_with cap model g = let next = try_enter cap (entry model g) in (insert model next.0 g, next.1)

-- `true` for a permit.
unfoldable pub admit : Text → ℕ → Governor → Governor × Bool
unfolding admit_with limit
admit model now g = let capped = limit model now g in admit_with capped.1 model capped.0

-- A permit is dropped.
unfoldable pub drop_permit : Text → Governor → Governor
drop_permit model g = elim (get model g) [ none ↦ g | some s ↦ insert model (leave s) g ]
