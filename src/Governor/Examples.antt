-- ===== src/Governor/Examples.antt =====
-- The theorems on src/governor.rs at concrete histories.
use llm_rate_limit_proxy.Base.{
  ℕ, suc, ◌≤◌, ◌≡◌, ◌≢◌, ◌⊎◌, refl, arith, true, false, List, [], ◌∷◌, some, Text, codes, same,
  retain, Option,
}
use llm_rate_limit_proxy.Governor.{Governor, entry, limit, admit, admit_with, inflight}
use llm_rate_limit_proxy.Governor.State.{
  ModelState, note_rebuff_state, implicated_keys, limit_state, pressured_state, try_enter, dedup,
  sort, insert_sorted, dedup_from,
}
use llm_rate_limit_proxy.Governor.Calls.{
  Call, rebuffed, asked, surveyed, entered, dropped, run, apply, Blames,
}
use llm_rate_limit_proxy.Governor.Steps.{step, entry-apply}
use llm_rate_limit_proxy.Governor.Caps.{limit-floor, limit-lone, limit-dissolves}
use llm_rate_limit_proxy.Governor.Permits.{
  admit-bounded, inflight-held, release-differs, start, call, held_after, IsHeld,
}

abbrev m : Text
m = codes "model"

abbrev two_lanes : List (ℕ × ℕ)
two_lanes = (5, 0) ∷ (7, 3) ∷ (9, 0) ∷ []

-- Eight are in flight, and one rebuff of lane 0 is on record.
abbrev busy : ModelState
busy = record {
  limit = 0;
  inflight = 8;
  rebuffs = (100, 0) ∷ [];
  last_rebuff = some 100;
  last_adjusted = Option.none;
}

busy_cut : (note_rebuff_state 1 200 busy).limit ≡ 4
unfolding note_rebuff_state implicated_keys dedup sort retain insert_sorted dedup_from
busy_cut = refl

busy_moves : (note_rebuff_state 1 200 busy).limit ≢ busy.limit
busy_moves h = absurd (ground (arith, busy_cut))

abbrev storm : List Call
storm =
    entered 0 m
    ∷ entered 0 m
    ∷ rebuffed m 0 100
    ∷ rebuffed m 1 200
    ∷ asked m 300
    ∷ surveyed 400
    ∷ dropped m
    ∷ []

limit-floor_example : ((entry m (run storm [])).limit ≡ 0) ⊎ (2 ≤ (entry m (run storm [])).limit)
limit-floor_example = limit-floor storm m

abbrev one_key : List Call
one_key = entered 0 m ∷ rebuffed m 4 100 ∷ rebuffed m 4 200 ∷ []

limit-lone_example : (entry m (run one_key [])).limit ≡ 0
unfolding Blames
limit-lone_example = limit-lone one_key m 4 (tt, ((λ _. refl), ((λ _. refl), tt)))

limit-dissolves_example :
    ((limit m 600200 (run storm [])).1 ≡ 0)
    × ((entry m (limit m 600200 (run storm [])).0).limit ≡ 0)
unfolding Blames
limit-dissolves_example =
    limit-dissolves storm m 200 600200
      (tt, (tt, ((λ _. omega arith), ((λ _. omega arith), (tt, (tt, (tt, tt))))))) (omega arith)

entry-apply_example :
    entry m (apply (rebuffed m 1 200) ((m, busy) ∷ []))
    ≡ step m (rebuffed m 1 200) (entry m ((m, busy) ∷ []))
entry-apply_example = entry-apply m (rebuffed m 1 200) ((m, busy) ∷ [])

admit-bounded_example :
    let g : Governor = run storm [] in
    (((admit m 500 g).1 ≡ true)
      × (inflight m (admit m 500 g).0 ≡ suc (inflight m g))
      × (((limit m 500 g).1 ≡ 0) ⊎ (inflight m (admit m 500 g).0 ≤ (limit m 500 g).1)))
    ⊎ (((admit m 500 g).1 ≡ false)
        × (inflight m (admit m 500 g).0 ≡ inflight m g)
        × (1 ≤ (limit m 500 g).1)
        × ((limit m 500 g).1 ≤ inflight m g))
admit-bounded_example = admit-bounded m 500 (run storm [])

inflight-held_example :
    inflight m (apply (dropped m) (apply (entered 0 m) []))
    ≡ held_after m (dropped m) (apply (entered 0 m) []) (held_after m (entered 0 m) [] 0)
unfolding IsHeld held_after admit_with try_enter same
inflight-held_example =
    inflight-held m (apply (dropped m) (apply (entered 0 m) []))
      (held_after m (dropped m) (apply (entered 0 m) []) (held_after m (entered 0 m) [] 0))
      (call (dropped m) (call (entered 0 m) start tt) (λ _. omega arith))

-- Under a cap of 3 that grew at 599 s, with the last rebuff at the origin.
abbrev grown : ModelState
grown = record {
  limit = 3;
  inflight = 4;
  rebuffs = [];
  last_rebuff = some 0;
  last_adjusted = some 599000;
}

release-differs_example :
    ((note_rebuff_state 1 601000 (note_rebuff_state 0 601000 (pressured_state 600000 grown))).limit
      ≡ 0)
    × (2
        ≤ (note_rebuff_state 1 601000
            (note_rebuff_state 0 601000 (limit_state 600000 grown).0)).limit)
release-differs_example =
    release-differs grown 600000 601000 599000 0 0 1 refl (omega arith) refl (omega arith)
      (omega arith) (omega arith)
