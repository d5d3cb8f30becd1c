-- ===== src/Pool/Affinity.antt =====
-- `affinity_lane` and `affinity_among` of src/pool.rs. The standard library's hash is a parameter.
use llm_rate_limit_proxy.Base.{
  ℕ, zero, suc, ◌+◌, ◌≤◌, ◌<◌, ◌≡◌, refl, inl, inr, ◌⊎◌, List, [], ◌∷◌, ◌++◌, Option, none, some,
  Text, leb, if◌then◌else◌, get_elem?, map_or, length, In, here, there, In-index, In-get_elem?,
  subst, ap, ◌∙◌, ◌↔◌, arith, Bool-cases, get_elem?-append_left, length-append,
}
use native.Mathlib.Decide.{ℕ_discrete}
use llm_rate_limit_proxy.Pool.Lane.{Lane}
use llm_rate_limit_proxy.Pool.Lanes.{Pool}

-- `Iterator::max_by_key`, which keeps the last of several maximal items.
unfoldable pub max_from : (ℕ → ℕ) → ℕ → List ℕ → ℕ
max_from key best [] = best
max_from key best (i ∷ is) = max_from key (if leb (key best) (key i) then i else best) is

unfoldable pub max_by_key : (ℕ → ℕ) → List ℕ → Option ℕ
max_by_key key [] = none
max_by_key key (i ∷ is) = some (max_from key i is)

-- `0..n`.
unfoldable pub range_from : ℕ → ℕ → List ℕ
range_from i zero = []
range_from i (suc n) = i ∷ range_from (suc i) n

module _ (hash : ℕ → Text → Text → ℕ) where
  -- The candidates are indices of lanes, so the default is never read.
  unfoldable pub weight : ℕ → List Lane → ℕ → ℕ
  weight session lanes i = map_or (get_elem? lanes i) 0 (λ l. hash session l.provider l.key)

  unfoldable pub affinity_among : Pool → ℕ → List ℕ → Option ℕ
  unfolding weight
  affinity_among p session candidates = max_by_key (weight session p.lanes) candidates

  unfoldable pub affinity_lane : Pool → ℕ → Option ℕ
  affinity_lane p session = affinity_among p session (range_from 0 (length p.lanes))

In-skip : {x b i : ℕ} {is : List ℕ} → In x (b ∷ is) → In x (b ∷ i ∷ is)
In-skip here = here
In-skip (there k) = there (there k)

-- The winner is one of the candidates, and none outweighs it.
max_from-In : (key : ℕ → ℕ) (best : ℕ) (is : List ℕ) → In (max_from key best is) (best ∷ is)
unfolding max_from
max_from-In key best [] = here
max_from-In key best (i ∷ is) = elim (Bool-cases (leb (key best) (key i))) [
  | inl e ↦ rw (e, max_from) (there (max_from-In key i is))
  | inr e ↦ rw (e, max_from) (In-skip (max_from-In key best is))
]

max_from-ge : (key : ℕ → ℕ) (best : ℕ) (is : List ℕ) → key best ≤ key (max_from key best is)
unfolding max_from
max_from-ge key best [] = omega arith
max_from-ge key best (i ∷ is) = ground (arith, max_from-ge key i is, max_from-ge key best is)

max_from-max :
    (key : ℕ → ℕ) (j best : ℕ) (is : List ℕ) → In j is → key j ≤ key (max_from key best is)
unfolding max_from
max_from-max key j best [] m = elim m [ ]
max_from-max key j best (i ∷ is) here =
    ground (arith, max_from-ge key j is, max_from-ge key best is)
max_from-max key j best (i ∷ is) (there m) =
    max_from-max key j (if leb (key best) (key i) then i else best) is m

pub max_by_key-In : (key : ℕ → ℕ) (is : List ℕ) {i : ℕ} → max_by_key key is ≡ some i → In i is
unfolding max_by_key
max_by_key-In key [] h = absurd (ground arith)
max_by_key-In key (j ∷ is) h = subst (λ x. In x (j ∷ is)) (ground arith) (max_from-In key j is)

pub max_by_key-max :
    (key : ℕ → ℕ) (is : List ℕ) {i : ℕ}
    → max_by_key key is ≡ some i
    → (j : ℕ) → In j is
    → key j ≤ key i
unfolding max_by_key
max_by_key-max key [] h j m = absurd (ground arith)
max_by_key-max key (k ∷ is) h j here = ground (arith, max_from-ge key j is)
max_by_key-max key (k ∷ is) h j (there m) = ground (arith, max_from-max key j k is m)

max_by_key-cons :
    (key : ℕ → ℕ) (is : List ℕ) {i : ℕ} → In i is → (w : ℕ) × (max_by_key key is ≡ some w)
unfolding max_by_key
max_by_key-cons key [] m = elim m [ ]
max_by_key-cons key (j ∷ is) here = (_, refl)
max_by_key-cons key (j ∷ is) (there m) = (_, refl)

-- A conversation keeps its lane in whatever set of candidates remains, as long as that lane is
-- still in the set and no other candidate has the same weight.
pub affinity_among-narrow :
    (hash : ℕ → Text → Text → ℕ) (p : Pool) (session : ℕ) (candidates remaining : List ℕ) {i : ℕ}
    → affinity_among hash p session candidates ≡ some i
    → ((j : ℕ) → In j remaining → In j candidates)
    → In i remaining
    → ((j : ℕ)
        → In j candidates
        → weight hash session p.lanes j ≡ weight hash session p.lanes i
        → j ≡ i)
    → affinity_among hash p session remaining ≡ some i
unfolding affinity_among
affinity_among-narrow hash p session candidates remaining {i} won sub m alone =
    let key = weight hash session p.lanes in
    let (w, e) = max_by_key-cons key remaining m in
    let inside = sub w (max_by_key-In key remaining e) in
    let above = max_by_key-max key candidates won w inside in
    let below = max_by_key-max key remaining e i m in e ∙ ap some (alone w inside (omega arith))

range_from-lt : (i n j : ℕ) → In j (range_from i n) → j < i + n
unfolding range_from
range_from-lt i zero j m = elim m [ ]
range_from-lt i (suc n) j here = omega arith
range_from-lt i (suc n) j (there m) = omega (arith, range_from-lt (suc i) n j m)

In-range_from : (i n j : ℕ) → i ≤ j → j < i + n → In j (range_from i n)
unfolding range_from
In-range_from i zero j h k = absurd (omega arith)
In-range_from i (suc n) j h k = elim (ℕ_discrete j i) [
  | yes e ↦ rw e here
  | no ne ↦ there (In-range_from (suc i) n j (omega arith) (omega arith))
]

weight-at :
    (hash : ℕ → Text → Text → ℕ) (session : ℕ) (lanes : List Lane) (i : ℕ) {l : Lane}
    → get_elem? lanes i ≡ some l
    → weight hash session lanes i ≡ hash session l.provider l.key
unfolding weight
weight-at hash session lanes i e = rw e

-- No lane of the pool outweighs the one that the session is pinned to.
affinity_lane-max :
    (hash : ℕ → Text → Text → ℕ) (p : Pool) (session : ℕ) {i : ℕ} {a l : Lane}
    → affinity_lane hash p session ≡ some i
    → get_elem? p.lanes i ≡ some a
    → In l p.lanes
    → hash session l.provider l.key ≤ hash session a.provider a.key
unfolding affinity_lane affinity_among
affinity_lane-max hash p session {i} {a} {l} won at m =
    let (k, e, lt) = In-index m in
    let h =
      max_by_key-max (weight hash session p.lanes) _ won k
        (In-range_from 0 (length p.lanes) k (omega arith) (omega arith)) in
    omega (arith, h, weight-at hash session p.lanes i at, weight-at hash session p.lanes k e)

-- Reordering the lanes relocates nothing: two pools with the same lanes, in any order, pin a session
-- to the same lane, as long as no two of the lanes have the same weight for it.
pub affinity_lane-reorder :
    (hash : ℕ → Text → Text → ℕ) (p q : Pool) (session : ℕ) {i j : ℕ} {a b : Lane}
    → ((l : Lane) → In l p.lanes ↔ In l q.lanes)
    → ((l : Lane) (l' : Lane)
        → In l p.lanes
        → In l' p.lanes
        → hash session l.provider l.key ≡ hash session l'.provider l'.key
        → l ≡ l')
    → affinity_lane hash p session ≡ some i
    → get_elem? p.lanes i ≡ some a
    → affinity_lane hash q session ≡ some j
    → get_elem? q.lanes j ≡ some b
    → a ≡ b
affinity_lane-reorder hash p q session {i} {j} {a} {b} perm apart won at won' at' =
    let in_a = In-get_elem? p.lanes i at in
    let in_b = In-get_elem? q.lanes j at' in
    let over = affinity_lane-max hash p session won at ((perm b).1 in_b) in
    let under = affinity_lane-max hash q session won' at' ((perm a).0 in_a) in
    apart a b in_a ((perm b).1 in_b) (omega arith)

max_from-snoc :
    (key : ℕ → ℕ) (best : ℕ) (is : List ℕ) (n : ℕ)
    → max_from key best (is ++ n ∷ [])
      ≡ (if leb (key (max_from key best is)) (key n) then n else max_from key best is)
unfolding max_from
max_from-snoc key best [] n = refl
max_from-snoc key best (i ∷ is) n =
    max_from-snoc key (if leb (key best) (key i) then i else best) is n

max_from-ext :
    (key key' : ℕ → ℕ) (best : ℕ) (is : List ℕ)
    → ((j : ℕ) → In j (best ∷ is) → key j ≡ key' j)
    → max_from key best is ≡ max_from key' best is
unfolding max_from
max_from-ext key key' best [] same = refl
max_from-ext key key' best (i ∷ is) same =
    rw (same best here, same i (there here))
      (max_from-ext key key' (if leb (key' best) (key' i) then i else best) is
        (λ j m. same j (widen j m)))
  where
    widen :
        (j : ℕ) → In j ((if leb (key' best) (key' i) then i else best) ∷ is) → In j (best ∷ i ∷ is)
    widen j m = elim (Bool-cases (leb (key' best) (key' i))) [
      | inl e ↦ there (rw e at m)
      | inr e ↦ In-skip (rw e at m)
    ]

range_from-snoc : (i n : ℕ) → range_from i (suc n) ≡ range_from i n ++ (i + n) ∷ []
unfolding range_from
range_from-snoc i zero = ap (λ x. x ∷ []) (omega arith)
range_from-snoc i (suc n) =
    ap (◌∷◌ i) (range_from-snoc (suc i) n ∙ ap (λ x. range_from (suc i) n ++ x ∷ []) (omega arith))

max_by_key-snoc :
    (key key' : ℕ → ℕ) (is : List ℕ) (n : ℕ)
    → ((j : ℕ) → In j is → key j ≡ key' j)
    → (max_by_key key (is ++ n ∷ []) ≡ some n)
      ⊎ (max_by_key key (is ++ n ∷ []) ≡ max_by_key key' is)
unfolding max_by_key max_from
max_by_key-snoc key key' [] n same = inl refl
max_by_key-snoc key key' (i ∷ is) n same =
    ground (arith, max_from-snoc key i is n, max_from-ext key key' i is same)

weight-grown :
    (hash : ℕ → Text → Text → ℕ) (session : ℕ) (lanes : List Lane) (l : Lane) (j : ℕ)
    → j < length lanes
    → weight hash session (lanes ++ l ∷ []) j ≡ weight hash session lanes j
unfolding weight
weight-grown hash session lanes l j h = rw (get_elem?-append_left lanes (l ∷ []) j h)

-- Adding a key relocates only that key's share: a session stays on the lane that it had, or moves
-- to the new lane.
pub affinity_lane-grow :
    (hash : ℕ → Text → Text → ℕ) (p : Pool) (l : Lane) (session : ℕ)
    → let grown = record p { lanes = p.lanes ++ l ∷ [] } in
      (affinity_lane hash grown session ≡ some (length p.lanes))
      ⊎ (affinity_lane hash grown session ≡ affinity_lane hash p session)
unfolding affinity_lane affinity_among
affinity_lane-grow hash p l session =
    rw (length-append p.lanes (l ∷ []), one_more)
      (max_by_key-snoc (weight hash session (p.lanes ++ l ∷ [])) (weight hash session p.lanes)
        (range_from 0 n) n
        (λ j m. weight-grown hash session p.lanes l j (omega (arith, range_from-lt 0 n j m))))
  where
    n : ℕ
    n = length p.lanes

    one_more : range_from 0 (n + 1) ≡ range_from 0 n ++ n ∷ []
    one_more =
        ap (range_from 0) (omega arith)
        ∙ range_from-snoc 0 n
        ∙ ap (λ x. range_from 0 n ++ x ∷ []) (omega arith)
