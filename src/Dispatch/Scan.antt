-- ===== src/Dispatch/Scan.antt =====
-- What one scan of the lanes finds, lane by lane.
use llm_rate_limit_proxy.Base.{
  ℕ, zero, suc, ◌+◌, ◌≤◌, ◌<◌, ◌≡◌, refl, ap, inl, inr, ◌⊎◌, Bool, true, false, List, [], ◌∷◌,
  Option, none, some, err, ltb, ◌||◌, length, get_elem?, In, here, there, checked_sub, arith,
  Bool-cases, Option-cases, ltb→lt, subst,
}
use llm_rate_limit_proxy.Pool.Window
use llm_rate_limit_proxy.Pool.Window.{SlidingWindow, prune_hits, prune}
use llm_rate_limit_proxy.Pool.Window.Retry.{prune_hits-twice}
use llm_rate_limit_proxy.Pool.Lane
use llm_rate_limit_proxy.Pool.Lane.{Lane}
use llm_rate_limit_proxy.Dispatch.{
  Query, Visit, skipped, slipped, cooling, full, roomy, passed_over, visit, Summary, note, scan,
}

-- The lane after a pruning, and the budget that it has then spent.
abbrev pub freed : ℕ → Lane → Lane
freed now l = record l { limiter = prune l.limiter now }

abbrev pub spent : ℕ → Lane → ℕ
spent now l = length (prune_hits (checked_sub now l.limiter.window) l.limiter.hits)

-- The limiter of a lane enforces the lane's rpm.
abbrev pub IsSound : Lane → Type 0
IsSound l = l.limiter.limit ≡ l.rpm

-- The cases of a visit to a sound lane.
pub data Seen (q : Query) (now idx : ℕ) (l : Lane) (v : Lane × Visit) : Type 0 where
  skip : passed_over q idx l ≡ true → v ≡ (l, skipped) → Seen q now idx l v
  cool :
      (until : ℕ)
      → passed_over q idx l ≡ false
      → Lane.cooldown_ends l now ≡ some until
      → v ≡ (l, cooling until)
      → Seen q now idx l v
  busy :
      passed_over q idx l ≡ false
      → Lane.cooldown_ends l now ≡ none
      → l.rpm ≤ spent now l
      → v ≡ (freed now l, full (Window.retry_at (prune l.limiter now) now))
      → Seen q now idx l v
  room :
      passed_over q idx l ≡ false
      → Lane.cooldown_ends l now ≡ none
      → spent now l < l.rpm
      → v ≡ (freed now l, roomy (spent now l))
      → Seen q now idx l v

prune-twice : (w : SlidingWindow) (now : ℕ) → prune (prune w now) now ≡ prune w now
unfolding prune
prune-twice w now =
    ap (λ hits. record w { hits = hits }) (prune_hits-twice w.window now now w.hits (omega arith))

freed_full :
    (now : ℕ) (l : Lane)
    → IsSound l
    → l.rpm ≤ spent now l
    → Lane.try_acquire (freed now l) now
      ≡ (freed now l, err (Window.retry_at (prune l.limiter now) now))
unfolding Lane.try_acquire Window.try_acquire
freed_full now l sound h = rw (prune-twice l.limiter now) (unfold prune in ground arith)

visit-busy :
    (q : Query) (now idx : ℕ) (l : Lane)
    → IsSound l
    → passed_over q idx l ≡ false
    → Lane.cooldown_ends l now ≡ none
    → ltb (spent now l) l.rpm ≡ false
    → visit q now idx l ≡ (freed now l, full (Window.retry_at (prune l.limiter now) now))
unfolding visit Lane.load Window.load
visit-busy q now idx l sound e c h =
    rw (e, c) (rw busy_test (rw (freed_full now l sound (ground arith))))
  where
    busy_test : ltb (length (prune l.limiter now).hits) l.rpm ≡ false
    busy_test = unfold prune in h

pub visit-Seen :
    (q : Query) (now idx : ℕ) (l : Lane) → IsSound l → Seen q now idx l (visit q now idx l)
visit-Seen q now idx l sound = elim (Bool-cases (passed_over q idx l)) [
  | inl e ↦ skip e (unfold visit in rw e)
  | inr e ↦ elim (Option-cases (Lane.cooldown_ends l now)) [
    | inr (until, c) ↦ cool until e c (unfold visit in rw (e, c))
    | inl c ↦ elim (Bool-cases (ltb (spent now l) l.rpm)) [
      | inl h ↦ room e c (ltb→lt _ _ h) (unfold visit Lane.load Window.load prune in rw (e, c, h))
      | inr h ↦ busy e c (ground arith) (visit-busy q now idx l sound e c h)
    ]
  ]
]

-- A lane of `ls` that stands at `j`, counted from `i`, with what the visit learns of it.
pub record At (q : Query) (now i : ℕ) (ls : List Lane) (j : ℕ) : Type 0 where
  pub k : ℕ
  pub lane : Lane
  pub place : j ≡ i + k
  pub found : get_elem? ls k ≡ some lane

abbrev pub at_later :
    {q : Query} {now i j : ℕ} {l : Lane} {ls : List Lane}
    → At q now (suc i) ls j
    → At q now i (l ∷ ls) j
at_later a = record { k = suc a.k; lane = a.lane; place = omega (arith, a.place); found = a.found }

note-room :
    (idx : ℕ) (v : Visit) (s : Summary) {r : ℕ × ℕ}
    → In r (note idx v s).with_room
    → ((v ≡ roomy r.0) × (r.1 ≡ idx)) ⊎ In r s.with_room
unfolding note
note-room idx skipped s m = inr m
note-room idx slipped s m = inr m
note-room idx (cooling t) s m = inr m
note-room idx (full t) s m = inr m
note-room idx (roomy n) s m = go m
  where
    go :
        {r : ℕ × ℕ}
        → In r ((n, idx) ∷ s.with_room)
        → ((roomy n ≡ roomy r.0) × (r.1 ≡ idx)) ⊎ In r s.with_room
    go here = inl (refl, refl)
    go (there m) = inr m

-- An entry of `with_room` is a lane whose visit found that load.
pub scan-room :
    (q : Query) (now i : ℕ) (ls : List Lane) {r : ℕ × ℕ}
    → In r (scan q now i ls).1.with_room
    → (a : At q now i ls r.1) × ((visit q now r.1 a.lane).1 ≡ roomy r.0)
unfolding scan
scan-room q now i [] m = elim m [ ]
scan-room q now i (l ∷ ls) m = elim (note-room i (visit q now i l).1 _ m) [
  | inl (e, at) ↦ (record { k = 0; lane = l; place = omega (arith, at); found = refl }, rw at e)
  | inr m' ↦ let (a, e) = scan-room q now (suc i) ls m' in (at_later a, e)
]

-- The scan leaves at each place the lane that its visit leaves there.
pub get_elem?-scan :
    (q : Query) (now i : ℕ) (ls : List Lane) (k : ℕ) {l : Lane}
    → get_elem? ls k ≡ some l
    → get_elem? (scan q now i ls).0 k ≡ some (visit q now (i + k) l).0
unfolding scan
get_elem?-scan q now i [] k e = absurd (ground arith)
get_elem?-scan q now i (x ∷ ls) zero {l} e = ground arith
get_elem?-scan q now i (x ∷ ls) (suc k) {l} e =
    subst (λ n. get_elem? (scan q now (suc i) ls).0 k ≡ some (visit q now n l).0) (omega arith)
      (get_elem?-scan q now (suc i) ls k e)

-- The time that a visit adds to those at which something may free.
abbrev pub due : Visit → Option ℕ
due (cooling t) = some t
due (full t) = some t
due _ = none

-- Whether the visit counts its lane as eligible.
abbrev pub counts : Visit → Bool
counts skipped = false
counts _ = true

note-eligible :
    (idx : ℕ) (v : Visit) (s : Summary) → (note idx v s).eligible ≡ (counts v || s.eligible)
unfolding note
note-eligible idx skipped s = refl
note-eligible idx slipped s = refl
note-eligible idx (cooling t) s = refl
note-eligible idx (full t) s = refl
note-eligible idx (roomy n) s = refl

pub scan-eligible :
    (q : Query) (now i : ℕ) (ls : List Lane) (k : ℕ) {l : Lane}
    → get_elem? ls k ≡ some l
    → counts (visit q now (i + k) l).1 ≡ true
    → (scan q now i ls).1.eligible ≡ true
unfolding scan
scan-eligible q now i [] k e c = absurd (ground arith)
scan-eligible q now i (x ∷ ls) zero {l} e c =
    let e' : x ≡ l = ground arith in
    let e'' : i ≡ i + 0 = omega arith in
    ground (arith, note-eligible i (visit q now i x).1 (scan q now (suc i) ls).1)
scan-eligible q now i (x ∷ ls) (suc k) {l} e c = ground (
  arith,
  note-eligible i (visit q now i x).1 (scan q now (suc i) ls).1,
  scan-eligible q now (suc i) ls k {l = l} e
      (subst (λ n. counts (visit q now n l).1 ≡ true) (omega arith) c),
)

-- An eligible lane is there.
pub scan-eligible_at :
    (q : Query) (now i : ℕ) (ls : List Lane)
    → (scan q now i ls).1.eligible ≡ true
    → (j : ℕ) × (a : At q now i ls j) × (counts (visit q now j a.lane).1 ≡ true)
unfolding scan
scan-eligible_at q now i [] h = absurd (ground arith)
scan-eligible_at q now i (x ∷ ls) h = elim (Bool-cases (counts (visit q now i x).1)) [
  | inl c ↦ (i, record { k = 0; lane = x; place = omega arith; found = refl }, c)
  | inr c ↦
      let (j, a, c') =
        scan-eligible_at q now (suc i) ls
          (ground (arith, note-eligible i (visit q now i x).1 (scan q now (suc i) ls).1)) in
      (j, at_later a, c')
]

note-room_of :
    (idx n : ℕ) (v : Visit) (s : Summary) → v ≡ roomy n → In (n, idx) (note idx v s).with_room
unfolding note
note-room_of idx n v s e = rw (e, note) here

note-room_later :
    (idx : ℕ) (v : Visit) (s : Summary) {r : ℕ × ℕ}
    → In r s.with_room
    → In r (note idx v s).with_room
unfolding note
note-room_later idx skipped s m = m
note-room_later idx slipped s m = m
note-room_later idx (cooling t) s m = m
note-room_later idx (full t) s m = m
note-room_later idx (roomy n) s m = there m

-- Every lane whose visit finds room is in `with_room`.
pub scan-room_of :
    (q : Query) (now i : ℕ) (ls : List Lane) (k : ℕ) {l : Lane} {n : ℕ}
    → get_elem? ls k ≡ some l
    → (visit q now (i + k) l).1 ≡ roomy n
    → In (n, i + k) (scan q now i ls).1.with_room
unfolding scan
scan-room_of q now i [] k e v = absurd (ground arith)
scan-room_of q now i (x ∷ ls) zero {l} {n} e v =
    subst (λ m. In (n, m) (scan q now i (x ∷ ls)).1.with_room) {x = i} {y = i + 0} (omega arith)
      (note-room_of i n _ _
        (let e' : x ≡ l = ground arith in let e'' : i ≡ i + 0 = omega arith in cc))
scan-room_of q now i (x ∷ ls) (suc k) {l} {n} e v =
    subst (λ m. In (n, m) (scan q now i (x ∷ ls)).1.with_room) {x = suc i + k} {y = i + suc k}
      (omega arith)
      (note-room_later i _ _ (
        scan-room_of q now (suc i) ls k e
          (subst (λ m. (visit q now m l).1 ≡ roomy n) (omega arith) v)))

-- The same of a scan that counts from 0.
module _ (q : Query) (now : ℕ) (ls : List Lane) where
  pub At-found : {j : ℕ} (a : At q now 0 ls j) → get_elem? ls j ≡ some a.lane
  At-found {j} a =
      subst (λ k. get_elem? ls k ≡ some a.lane) {x = a.k} {y = j} (omega (arith, a.place)) a.found

  pub get_elem?-scan_zero :
      (k : ℕ) {l : Lane}
      → get_elem? ls k ≡ some l
      → get_elem? (scan q now 0 ls).0 k ≡ some (visit q now k l).0
  get_elem?-scan_zero k {l} e =
      subst (λ n. get_elem? (scan q now 0 ls).0 k ≡ some (visit q now n l).0) {x = 0 + k} {y = k}
        (omega arith) (get_elem?-scan q now 0 ls k e)

  pub scan-room_of_zero :
      (k : ℕ) {l : Lane} {n : ℕ}
      → get_elem? ls k ≡ some l
      → (visit q now k l).1 ≡ roomy n
      → In (n, k) (scan q now 0 ls).1.with_room
  scan-room_of_zero k {l} {n} e v =
      subst (λ m. In (n, m) (scan q now 0 ls).1.with_room) {x = 0 + k} {y = k} (omega arith)
        (scan-room_of q now 0 ls k e
          (subst (λ m. (visit q now m l).1 ≡ roomy n) {x = k} {y = 0 + k} (omega arith) v))

  pub scan-eligible_zero :
      (k : ℕ) {l : Lane}
      → get_elem? ls k ≡ some l
      → counts (visit q now k l).1 ≡ true
      → (scan q now 0 ls).1.eligible ≡ true
  scan-eligible_zero k {l} e c =
      scan-eligible q now 0 ls k e
        (subst (λ m. counts (visit q now m l).1 ≡ true) {x = k} {y = 0 + k} (omega arith) c)
