-- ===== src/Pool/Window/Whole.antt =====
-- `SlidingWindow` beside a limiter that forgets nothing: what `prune` drops from the deque is never missed.
use llm_rate_limit_proxy.Base.{
  ℕ, ◌+◌, ◌≤◌, ◌<◌, ◌≡◌, refl, ◌∙◌, sym, ap, inl, inr, Bool, List, [], ◌∷◌, ◌++◌, Option, none,
  some, ltb, leb, if◌then◌else◌, checked_sub, length, count_if, count_if-append, arith, Bool-cases,
  ltb→lt, true, false, on_if,
}
use llm_rate_limit_proxy.Pool.Window.{SlidingWindow, new, prune_hits}
use llm_rate_limit_proxy.Pool.Window.Rate.{grants, grants_room, grants_full, IsMonotone, kept}

-- How many of the grants are younger than the window.
unfoldable pub young : ℕ → List ℕ → ℕ → ℕ
young window log now = count_if (λ t. ltb now (t + window)) log

-- The limiter that keeps the whole log of its grants, and counts at each request those that are young.
unfoldable pub grants_from : ℕ → ℕ → List ℕ → List ℕ → List ℕ
unfolding young
grants_from limit window log [] = []
grants_from limit window log (now ∷ later) =
    let granted = now ∷ grants_from limit window (log ++ now ∷ []) later in
    let refused = grants_from limit window log later in
    if ltb (young window log now) limit then granted else refused

young-prune_hits :
    (window now t : ℕ) (hits : List ℕ)
    → now ≤ t
    → young window (prune_hits (checked_sub now window) hits) t ≡ young window hits t
unfolding young prune_hits count_if
young-prune_hits window now t [] later = refl
young-prune_hits window now t (front ∷ rest) later =
    ground (arith, young-prune_hits window now t rest later)

young-rising :
    (window now front : ℕ) (rest : List ℕ)
    → IsMonotone front rest
    → now < front + window
    → young window rest now ≡ length rest
unfolding young count_if
young-rising window now front [] m lt = omega arith
young-rising window now front (x ∷ rest) m lt =
    ground (arith, young-rising window now x rest m.1 (omega arith), m.0)

-- Of rising hits, pruning leaves exactly those that are young.
length-prune_hits-young :
    (window now a : ℕ) (hits : List ℕ)
    → IsMonotone a hits
    → length (prune_hits (checked_sub now window) hits) ≡ young window hits now
unfolding young prune_hits count_if
length-prune_hits-young window now a [] m = omega arith
length-prune_hits-young window now a (front ∷ rest) m =
    elim (Bool-cases (ltb now (front + window))) [
      | inl fresh ↦ ground (arith, young-rising window now front rest m.1 (ltb→lt _ _ fresh))
      | inr old ↦ ground (arith, length-prune_hits-young window now front rest m.1)
    ]

IsMonotone-lower : (a b : ℕ) (times : List ℕ) → a ≤ b → IsMonotone b times → IsMonotone a times
IsMonotone-lower a b [] h m = tt
IsMonotone-lower a b (t ∷ times) h m = (omega arith, m.1)

-- Dropping hits at the front leaves them rising.
IsMonotone-prune_hits :
    (c : Option ℕ) (a : ℕ) (hits ends : List ℕ)
    → IsMonotone a (hits ++ ends)
    → IsMonotone a (prune_hits c hits ++ ends)
unfolding prune_hits
IsMonotone-prune_hits c a [] ends m = m
IsMonotone-prune_hits none a (front ∷ rest) ends m = m
IsMonotone-prune_hits (some c) a (front ∷ rest) ends m =
    on_if (λ l. IsMonotone a (l ++ ends)) (leb front c) _ _
      (λ gone. IsMonotone-lower a front _ m.0 (IsMonotone-prune_hits (some c) front rest ends m.1))
      (λ stays. m)

-- The clock moves on.
IsMonotone-raise :
    (a last now : ℕ) (hits : List ℕ)
    → last ≤ now
    → IsMonotone a (hits ++ last ∷ [])
    → IsMonotone a (hits ++ now ∷ [])
IsMonotone-raise a last now [] h m = (omega arith, tt)
IsMonotone-raise a last now (x ∷ hits) h m = (m.0, IsMonotone-raise x last now hits h m.1)

IsMonotone-again :
    (a now : ℕ) (hits : List ℕ)
    → IsMonotone a (hits ++ now ∷ [])
    → IsMonotone a ((hits ++ now ∷ []) ++ now ∷ [])
IsMonotone-again a now [] m = (m.0, (omega arith, tt))
IsMonotone-again a now (x ∷ hits) m = (m.0, IsMonotone-again x now hits m.1)

IsMonotone-front : (a : ℕ) (hits ends : List ℕ) → IsMonotone a (hits ++ ends) → IsMonotone a hits
IsMonotone-front a [] ends m = tt
IsMonotone-front a (x ∷ hits) ends m = (m.0, IsMonotone-front x hits ends m.1)

-- The deque and the whole log, at a time not before `last`: no later request tells them apart.
record Agrees (w : SlidingWindow) (last : ℕ) (log : List ℕ) : Type 0 where
  rising : IsMonotone 0 (w.hits ++ last ∷ [])
  alike : (t : ℕ) → last ≤ t → young w.window log t ≡ young w.window w.hits t

module _ (w : SlidingWindow) (last now : ℕ) (log : List ℕ) (later : last ≤ now)
    (h : Agrees w last log) where
  kept-rising : IsMonotone 0 (kept w now ++ now ∷ [])
  kept-rising =
      IsMonotone-prune_hits (checked_sub now w.window) 0 w.hits _
        (IsMonotone-raise 0 last now w.hits later h.rising)

  kept-alike : (t : ℕ) → now ≤ t → young w.window log t ≡ young w.window (kept w now) t
  kept-alike t ahead = h.alike t (omega arith) ∙ sym (young-prune_hits w.window now t w.hits ahead)

  -- Both see the same load.
  load-young : length (kept w now) ≡ young w.window log now
  load-young =
      length-prune_hits-young w.window now 0 w.hits (IsMonotone-front 0 w.hits _ h.rising)
      ∙ sym (h.alike now later)

  refused_Agrees : Agrees (record w { hits = kept w now }) now log
  refused_Agrees = record { rising = kept-rising; alike = kept-alike }

  granted_Agrees : Agrees (record w { hits = kept w now ++ now ∷ [] }) now (log ++ now ∷ [])
  unfolding young
  granted_Agrees = record {
    rising = IsMonotone-again 0 now (kept w now) kept-rising;
    alike = λ t ahead.
        count_if-append _ log (now ∷ [])
        ∙ ap (λ n. n + count_if (λ x. ltb t (x + w.window)) (now ∷ [])) (kept-alike t ahead)
        ∙ sym (count_if-append _ (kept w now) (now ∷ []));
  }

grants_from-when :
    (limit window : ℕ) (log : List ℕ) (now : ℕ) (later : List ℕ) {b : Bool}
    → ltb (young window log now) limit ≡ b
    → grants_from limit window log (now ∷ later) ≡ (
        if b
        then now ∷ grants_from limit window (log ++ now ∷ []) later
        else grants_from limit window log later)
unfolding grants_from
grants_from-when limit window log now later e =
    ap
      (λ (c : Bool).
        if c
        then now ∷ grants_from limit window (log ++ now ∷ []) later
        else grants_from limit window log later)
      e

grants_alike :
    (times : List ℕ) (w : SlidingWindow) (last : ℕ) (log : List ℕ)
    → Agrees w last log
    → IsMonotone last times
    → grants w times ≡ grants_from w.limit w.window log times
grants_alike [] w last log h m = unfold grants grants_from in refl
grants_alike (now ∷ later) w last log h m =
    let loads : (b : Bool)
        → ltb (length (kept w now)) w.limit ≡ b
        → ltb (young w.window log now) w.limit ≡ b =
      λ b e. ap (λ n. ltb n w.limit) (sym (load-young w last now log m.0 h)) ∙ e in
    elim (Bool-cases (ltb (length (kept w now)) w.limit)) [
      | inl room ↦
          grants_room w now later room
          ∙ ap (◌∷◌ now) (
              grants_alike later (record w { hits = kept w now ++ now ∷ [] }) now (log ++ now ∷ [])
                (granted_Agrees w last now log m.0 h) m.1)
          ∙ sym (grants_from-when w.limit w.window log now later (loads true room))
      | inr full ↦
          grants_full w now later full
          ∙ grants_alike later (record w { hits = kept w now }) now log
              (refused_Agrees w last now log m.0 h) m.1
          ∙ sym (grants_from-when w.limit w.window log now later (loads false full))
    ]

-- At times that do not decrease, the window grants exactly the requests that a limiter grants which keeps the log of
-- all its grants and counts, at each request, those younger than the window: what pruning forgets is never missed.
pub grants-whole :
    (limit window : ℕ) (times : List ℕ)
    → IsMonotone 0 times
    → grants (new limit window) times ≡ grants_from limit window [] times
unfolding new
grants-whole limit window times m =
    grants_alike times (new limit window) 0 []
      (record { rising = (omega arith, tt); alike = λ t ahead. refl }) m
