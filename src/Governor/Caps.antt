-- ===== src/Governor/Caps.antt =====
-- The caps of src/governor.rs over every history of calls: the floor, the evidence of two keys, and the
-- release of a quiet model.
use llm_rate_limit_proxy.Base.{
  ℕ, ◌+◌, ◌≤◌, ◌≡◌, ◌⊎◌, inl, inr, refl, sym, ap, subst, ◌∙◌, arith, true, List, [], ◌∷◌, Option,
  none, some, ltb, leb, if◌then◌else◌, ◌&&◌, retain, All, In-All, Bool-cases, is_some_and, Text,
  same_refl, map_or, All-append, All-retain,
}
use llm_rate_limit_proxy.Base.Assoc.{get, insert}
use llm_rate_limit_proxy.Governor.{Governor, entry, limit}
use llm_rate_limit_proxy.Governor.State.{
  ModelState, default_state, note_rebuff_state, limit_state, pressured_state, try_enter, leave,
  dissolve_after, cut, observe, grow, dissolve, implicated_keys, is_current, is_quiet,
}
use llm_rate_limit_proxy.Governor.Calls.{
  Call, rebuffed, asked, surveyed, entered, dropped, run, Blames, IsKept, entry-run, entry-insert,
}
use llm_rate_limit_proxy.Governor.Evidence.{implicated_keys-lone}

-- Ungoverned, or under a cap of at least two with a rebuff on record, none later than `t`.
unfoldable pub IsBounded : ℕ → ModelState → Type 0
IsBounded t s =
    (s.limit ≡ 0) ⊎ ((2 ≤ s.limit) × (is_some_and s.last_rebuff (λ at. leb at t) ≡ true))

IsBounded-rebuff :
    (t lane now : ℕ) (s : ModelState)
    → now ≤ t
    → IsBounded t s
    → IsBounded t (note_rebuff_state lane now s)
unfolding IsBounded note_rebuff_state cut observe
IsBounded-rebuff t lane now s h hs = ground arith

IsBounded-asking : (t now : ℕ) (s : ModelState) → IsBounded t s → IsBounded t (limit_state now s).0
unfolding IsBounded limit_state grow dissolve
IsBounded-asking t now s hs = ground arith

IsBounded-survey :
    (t now : ℕ) (s : ModelState) → IsBounded t s → IsBounded t (pressured_state now s)
unfolding IsBounded pressured_state
IsBounded-survey t now s hs = ground arith

IsBounded-IsKept : (t : ℕ) → IsKept (λ lane now. now ≤ t) (IsBounded t)
unfolding IsBounded try_enter leave
IsBounded-IsKept t = record {
  default = inl refl;
  rebuff = IsBounded-rebuff t;
  asking = IsBounded-asking t;
  survey = IsBounded-survey t;
  enter = λ cap s hs. ground arith;
  leaves = λ s hs. hs;
}

-- Ungoverned, with every rebuff on record from the lane `l`.
unfoldable pub IsLone : ℕ → ModelState → Type 0
IsLone l s = (s.limit ≡ 0) × All (λ (r : ℕ × ℕ). r.1 ≡ l) s.rebuffs

All-alike : (l : ℕ) (rs : List (ℕ × ℕ)) → All (λ (r : ℕ × ℕ). r.1 ≡ l) rs → implicated_keys rs ≤ 1
All-alike l rs h =
    (implicated_keys-lone rs).1
      (λ a b i j. In-All (λ (r : ℕ × ℕ). r.1 ≡ l) h i ∙ sym (In-All (λ (r : ℕ × ℕ). r.1 ≡ l) h j))

IsLone-rebuff :
    (l lane now : ℕ) (s : ModelState)
    → lane ≡ l
    → IsLone l s
    → IsLone l (note_rebuff_state lane now s)
unfolding IsLone note_rebuff_state observe
IsLone-rebuff l lane now s h hs =
    let Q : ℕ × ℕ → Type 0 = λ r. r.1 ≡ l in
    let kept : All Q (observe lane now s).rebuffs =
      All-append Q (retain (is_current now) s.rebuffs) ((now, lane) ∷ [])
        (All-retain Q (is_current now) s.rebuffs hs.1) (h, tt) in
    let few = All-alike l (observe lane now s).rebuffs kept in
    let same_state : note_rebuff_state lane now s ≡ observe lane now s = ground arith in
    subst (IsLone l) (sym same_state) (hs.0, kept)

grow-none : (now : ℕ) (s : ModelState) → s.limit ≡ 0 → grow now s ≡ s
unfolding grow
grow-none now s h = ground arith

IsLone-asking : (l now : ℕ) (s : ModelState) → IsLone l s → IsLone l (limit_state now s).0
unfolding IsLone limit_state grow dissolve
IsLone-asking l now s hs = elim (Bool-cases (is_quiet now s)) [
  | inl e ↦ rw (e) (refl, tt)
  | inr e ↦ rw (e) (subst (IsLone l) (sym (grow-none now s hs.0)) hs)
]

IsLone-survey : (l now : ℕ) (s : ModelState) → IsLone l s → IsLone l (pressured_state now s)
unfolding IsLone pressured_state
IsLone-survey l now s hs = elim (Bool-cases (is_quiet now s)) [
  | inl e ↦ rw (e) (refl, tt)
  | inr e ↦ rw (e) hs
]

IsLone-enter : (l cap : ℕ) (s : ModelState) → IsLone l s → IsLone l (try_enter cap s).0
unfolding IsLone try_enter
IsLone-enter l cap s hs = elim (Bool-cases (ltb 0 cap && leb cap s.inflight)) [
  | inl e ↦ rw (e) hs
  | inr e ↦ rw (e) hs
]

IsLone-IsKept : (l : ℕ) → IsKept (λ lane now. lane ≡ l) (IsLone l)
unfolding IsLone try_enter leave
IsLone-IsKept l = record {
  default = (refl, tt);
  rebuff = IsLone-rebuff l;
  asking = IsLone-asking l;
  survey = IsLone-survey l;
  enter = IsLone-enter l;
  leaves = λ s hs. hs;
}

unfoldable pub IsFloored : ModelState → Type 0
IsFloored s = (s.limit ≡ 0) ⊎ (2 ≤ s.limit)

IsFloored-IsKept : IsKept (λ lane now. Unit) IsFloored
unfolding IsFloored note_rebuff_state cut observe limit_state grow dissolve pressured_state
    try_enter leave
IsFloored-IsKept = record {
  default = inl refl;
  rebuff = λ lane now s h hs. ground arith;
  asking = λ now s hs. ground arith;
  survey = λ now s hs. ground arith;
  enter = λ cap s hs. ground arith;
  leaves = λ s hs. hs;
}

Blames-any : (cs : List Call) (model : Text) → All (Blames (λ lane now. Unit) model) cs
unfolding Blames
Blames-any [] model = tt
Blames-any (rebuffed m lane now ∷ cs) model = ((λ _. tt), Blames-any cs model)
Blames-any (asked m now ∷ cs) model = (tt, Blames-any cs model)
Blames-any (surveyed now ∷ cs) model = (tt, Blames-any cs model)
Blames-any (entered cap m ∷ cs) model = (tt, Blames-any cs model)
Blames-any (dropped m ∷ cs) model = (tt, Blames-any cs model)

-- From the empty map, whatever the calls and their times, a model's cap is none or at least two.
pub limit-floor :
    (cs : List Call) (model : Text)
    → ((entry model (run cs [])).limit ≡ 0) ⊎ (2 ≤ (entry model (run cs [])).limit)
unfolding IsFloored get
limit-floor cs model =
    entry-run (λ lane now. Unit) IsFloored IsFloored-IsKept model cs [] (Blames-any cs model)
      (inl refl)

-- A model of which every rebuff names one lane is never governed.
pub limit-lone :
    (cs : List Call) (model : Text) (l : ℕ)
    → All (Blames (λ lane now. lane ≡ l) model) cs
    → (entry model (run cs [])).limit ≡ 0
unfolding IsLone get
limit-lone cs model l h =
    (entry-run (λ lane now. lane ≡ l) (IsLone l) (IsLone-IsKept l) model cs [] h (refl, tt)).0

limit_state-late :
    (t now : ℕ) (s : ModelState)
    → t + dissolve_after ≤ now
    → IsBounded t s
    → ((limit_state now s).1 ≡ 0) × ((limit_state now s).0.limit ≡ 0)
unfolding IsBounded limit_state grow dissolve
limit_state-late t now s late h = ground arith

limit-late :
    (model : Text) (t now : ℕ) (g : Governor) (o : Option ModelState)
    → get model g ≡ o
    → t + dissolve_after ≤ now
    → IsBounded t (entry model g)
    → (λ (y : Governor × ℕ). (y.1 ≡ 0) × ((entry model y.0).limit ≡ 0))
        (elim o as (λ _. Governor × ℕ) [
          | none ↦ (g, 0)
          | some s ↦ (insert model (limit_state now s).0 g, (limit_state now s).1)
        ])
limit-late model t now g none e late h =
    (refl, ap (λ (o : Option ModelState). (map_or o default_state (λ s. s)).limit) e)
limit-late model t now g (some s) e late h =
    let h' : IsBounded t s =
      subst (λ (o : Option ModelState). IsBounded t (map_or o default_state (λ s. s))) e h in
    let next = (limit_state now s).0 in
    let is : entry model (insert model next g) ≡ next =
      entry-insert model model next g
      ∙ ap (λ b. if b then next else entry model g) (same_refl model) in
    let (zero_cap, zero_kept) = limit_state-late t now s late h' in
    (zero_cap, ap (λ (x : ModelState). x.limit) is ∙ zero_kept)

-- Once the last rebuff of a model is ten minutes old, asking for its cap answers that it has none, and
-- it then has none.
pub limit-dissolves :
    (cs : List Call) (model : Text) (t now : ℕ)
    → All (Blames (λ lane at. at ≤ t) model) cs
    → t + dissolve_after ≤ now
    → ((limit model now (run cs [])).1 ≡ 0)
      × ((entry model (limit model now (run cs [])).0).limit ≡ 0)
unfolding limit IsBounded get
limit-dissolves cs model t now h late =
    let g = run cs [] in
    limit-late model t now g (get model g) refl late
      (entry-run (λ lane at. at ≤ t) (IsBounded t) (IsBounded-IsKept t) model cs [] h (inl refl))
