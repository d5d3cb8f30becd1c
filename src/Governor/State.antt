-- ===== src/Governor/State.antt =====
-- `ModelState` of src/governor.rs, and what each method of the governor does to the state of the
-- model that it is about.
use llm_rate_limit_proxy.Base.{
  ℕ, ◌+◌, ◌-◌, ◌/◌, Bool, true, false, List, [], ◌∷◌, ◌++◌, Option, none, some, ltb, leb, ◌==◌, not,
  if◌then◌else◌, ◌&&◌, ◌||◌, map, min, max, retain, length, is_some_and, or_option,
}

abbrev pub evidence_window : ℕ
evidence_window = 10000

abbrev pub keys_to_indict : ℕ
keys_to_indict = 2

abbrev pub dissolve_after : ℕ
dissolve_after = 600000

abbrev pub adjust_cooldown : ℕ
adjust_cooldown = 5000

abbrev pub min_limit : ℕ
min_limit = 2

abbrev pub grow_interval : ℕ
grow_interval = 60000

-- `limit` is 0 for an ungoverned model; a rebuff is its time and its lane.
pub record ModelState : Type 0 where
  pub limit : ℕ
  pub inflight : ℕ
  pub rebuffs : List (ℕ × ℕ)
  pub last_rebuff : Option ℕ
  pub last_adjusted : Option ℕ

abbrev pub default_state : ModelState
default_state = record {
  limit = 0;
  inflight = 0;
  rebuffs = [];
  last_rebuff = none;
  last_adjusted = none;
}

abbrev pub is_current : ℕ → ℕ × ℕ → Bool
is_current now r = ltb (now - r.0) evidence_window

-- `sort_unstable`, then `dedup`, then `len`.
unfoldable pub insert_sorted : ℕ → List ℕ → List ℕ
insert_sorted x [] = x ∷ []
insert_sorted x (y ∷ ys) = if leb x y then x ∷ y ∷ ys else y ∷ insert_sorted x ys

unfoldable pub sort : List ℕ → List ℕ
sort [] = []
sort (x ∷ xs) = insert_sorted x (sort xs)

-- What `dedup` leaves behind an item `x`.
unfoldable pub dedup_from : ℕ → List ℕ → List ℕ
dedup_from x [] = []
dedup_from x (y ∷ ys) = if x == y then dedup_from x ys else y ∷ dedup_from y ys

unfoldable pub dedup : List ℕ → List ℕ
dedup [] = []
dedup (x ∷ xs) = x ∷ dedup_from x xs

unfoldable pub implicated_keys : List (ℕ × ℕ) → ℕ
implicated_keys rebuffs = length (dedup (sort (map (λ r. r.1) rebuffs)))

abbrev pub just_adjusted : ℕ → ModelState → Bool
just_adjusted now s = is_some_and s.last_adjusted (λ at. ltb (now - at) adjust_cooldown)

abbrev pub our_gate_was_binding : ModelState → Bool
our_gate_was_binding s = (s.limit == 0) || leb s.limit s.inflight

-- Half the concurrency that was running, but never below the floor.
abbrev pub backed_off : ModelState → ℕ
backed_off s = max (max s.inflight 1 / 2) min_limit

unfoldable pub cut : ℕ → ModelState → ModelState
cut now s =
    let lowered = if s.limit == 0 then backed_off s else min s.limit (backed_off s) in
    if lowered == s.limit then s else record s { limit = lowered; last_adjusted = some now }

unfoldable pub observe : ℕ → ℕ → ModelState → ModelState
observe lane now s = record s {
  rebuffs = retain (is_current now) s.rebuffs ++ (now, lane) ∷ [];
  last_rebuff = some now;
}

unfoldable pub note_rebuff_state : ℕ → ℕ → ModelState → ModelState
unfolding cut observe
note_rebuff_state lane now s =
    let s' = observe lane now s in
    if leb keys_to_indict (implicated_keys s'.rebuffs)
      && (not (just_adjusted now s') && our_gate_was_binding s')
    then cut now s'
    else s'

abbrev pub is_quiet : ℕ → ModelState → Bool
is_quiet now s = is_some_and s.last_rebuff (λ at. leb dissolve_after (now - at))

unfoldable pub grow : ℕ → ModelState → ModelState
grow now s =
    if ltb 0 s.limit
      && is_some_and (or_option s.last_adjusted s.last_rebuff) (λ at. leb grow_interval (now - at))
    then record s { limit = s.limit + 1; last_adjusted = some now }
    else s

unfoldable pub dissolve : ModelState → ModelState
dissolve s = record s { limit = 0; rebuffs = []; last_rebuff = none; last_adjusted = none }

unfoldable pub limit_state : ℕ → ModelState → ModelState × ℕ
unfolding grow dissolve
limit_state now s =
    if is_quiet now s then (dissolve s, 0) else (let s' = grow now s in (s', s'.limit))

-- `pressured` dissolves too, but it leaves `last_adjusted`.
unfoldable pub pressured_state : ℕ → ModelState → ModelState
pressured_state now s =
    if is_quiet now s then record s { limit = 0; rebuffs = []; last_rebuff = none } else s

unfoldable pub try_enter : ℕ → ModelState → ModelState × Bool
try_enter cap s =
    if ltb 0 cap && leb cap s.inflight
    then (s, false)
    else (record s { inflight = s.inflight + 1 }, true)

-- `saturating_sub(1)`.
unfoldable pub leave : ModelState → ModelState
leave s = record s { inflight = s.inflight - 1 }
