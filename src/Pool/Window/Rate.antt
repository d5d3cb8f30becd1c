-- ===== src/Pool/Window/Rate.antt =====
-- The limiter's promise: no rolling window ever holds more grants than the limit.
use llm_rate_limit_proxy.Base.{
  ℕ, ◌+◌, ◌≤◌, ◌<◌, ◌≡◌, refl, ◌∙◌, sym, ap, inl, inr, Bool, List, [], ◌∷◌, ◌++◌, Option, none,
  some, ok, err, ltb, leb, if◌then◌else◌, ◌&&◌, checked_sub, length, count_if, count_if-append,
  count_if-le-length, All, All-append, All-imp, arith, append_assoc, append-nil, Bool-cases, ltb→lt,
  true, false, Result, subst,
}
use llm_rate_limit_proxy.Pool.Window.{SlidingWindow, new, prune_hits, prune, try_acquire, retry_at}

abbrev note_grant : ℕ → Result (Unit {0}) ℕ → List ℕ → List ℕ
note_grant now (ok _) rest = now ∷ rest
note_grant now (err _) rest = rest

-- The times, out of those at which a slot is asked for, at which one is granted.
unfoldable pub grants : SlidingWindow → List ℕ → List ℕ
grants w [] = []
grants w (now ∷ later) = let next = try_acquire w now in note_grant now next.1 (grants next.0 later)

-- The clock does not run backwards.
abbrev pub IsMonotone : ℕ → List ℕ → Type 0
IsMonotone last [] = Unit
IsMonotone last (t ∷ ts) = (last ≤ t) × IsMonotone t ts

-- Within the half-open span of one window that begins at `t`.
abbrev pub within : ℕ → ℕ → ℕ → Bool
within window t x = leb t x && ltb x (t + window)

-- `gone` are the grants that were pruned, in front of those still held.
record Held (w : SlidingWindow) (last : ℕ) (log gone : List ℕ) : Type 0 where
  split : log ≡ gone ++ w.hits
  passed : All (λ d. d + w.window ≤ last) gone
  paced : (t : ℕ) → count_if (within w.window t) log ≤ w.limit

-- The hits that one pruning drops.
dropped : Option ℕ → List ℕ → List ℕ
dropped cutoff [] = []
dropped none (front ∷ rest) = []
dropped (some c) (front ∷ rest) = if leb front c then front ∷ dropped (some c) rest else []

dropped-prune_hits : (c : Option ℕ) (hits : List ℕ) → hits ≡ dropped c hits ++ prune_hits c hits
unfolding dropped prune_hits
dropped-prune_hits none [] = refl
dropped-prune_hits (some c) [] = refl
dropped-prune_hits none (front ∷ rest) = refl
dropped-prune_hits (some c) (front ∷ rest) = ground (arith, dropped-prune_hits (some c) rest)

dropped_passed :
    (now window : ℕ) (hits : List ℕ)
    → All (λ d. d + window ≤ now) (dropped (checked_sub now window) hits)
unfolding dropped
dropped_passed now window [] = tt
dropped_passed now window (front ∷ rest) = ground (arith, dropped_passed now window rest)

count-passed :
    (window now t : ℕ) (gone : List ℕ)
    → All (λ d. d + window ≤ now) gone
    → now < t + window
    → count_if (within window t) gone ≡ 0
unfolding count_if
count-passed window now t [] h lt = refl
count-passed window now t (d ∷ gone) h lt = ground (arith, count-passed window now t gone h.1 lt)

module _ (w : SlidingWindow) (now : ℕ) where
  abbrev pub kept : List ℕ
  kept = prune_hits (checked_sub now w.window) w.hits

  abbrev newly_gone : List ℕ
  newly_gone = dropped (checked_sub now w.window) w.hits

  split_further : (log gone : List ℕ) → log ≡ gone ++ w.hits → log ≡ (gone ++ newly_gone) ++ kept
  split_further log gone e =
      e
      ∙ ap (◌++◌ gone) (dropped-prune_hits (checked_sub now w.window) w.hits)
      ∙ sym (append_assoc gone newly_gone kept)

  passed_further :
      {last : ℕ} (gone : List ℕ)
      → last ≤ now
      → All (λ d. d + w.window ≤ last) gone
      → All (λ d. d + w.window ≤ now) (gone ++ newly_gone)
  passed_further gone later h =
      All-append _ gone newly_gone (All-imp (λ d p. omega arith) gone h)
        (dropped_passed now w.window w.hits)

  -- One more grant, with room in the window: in a span that holds `now` only kept hits count.
  paced_further :
      (log gone : List ℕ) (t : ℕ)
      → log ≡ gone ++ kept
      → All (λ d. d + w.window ≤ now) gone
      → length kept < w.limit
      → count_if (within w.window t) log ≤ w.limit
      → count_if (within w.window t) (log ++ now ∷ []) ≤ w.limit
  unfolding count_if
  paced_further log gone t e past room before = elim (Bool-cases (within w.window t now)) [
    | inl hit ↦ ground (
      arith,
      e,
      count_if-append (within w.window t) log (now ∷ []),
      count_if-append (within w.window t) gone kept,
      count-passed w.window now t gone past,
      count_if-le-length (within w.window t) kept,
    )
    | inr miss ↦ ground (arith, count_if-append (within w.window t) log (now ∷ []))
  ]

  granted_Held :
      {last : ℕ} (log gone : List ℕ)
      → last ≤ now
      → Held w last log gone
      → length kept < w.limit
      → Held (record w { hits = kept ++ now ∷ [] }) now (log ++ now ∷ []) (gone ++ newly_gone)
  granted_Held log gone later h room = record {
    split =
        ap (λ l. l ++ now ∷ []) (split_further log gone h.split)
        ∙ append_assoc (gone ++ newly_gone) kept (now ∷ []);
    passed = passed_further gone later h.passed;
    paced = λ t.
        paced_further log (gone ++ newly_gone) t (split_further log gone h.split)
          (passed_further gone later h.passed) room (h.paced t);
  }

  refused_Held :
      {last : ℕ} (log gone : List ℕ)
      → last ≤ now
      → Held w last log gone
      → Held (record w { hits = kept }) now log (gone ++ newly_gone)
  refused_Held log gone later h = record {
    split = split_further log gone h.split;
    passed = passed_further gone later h.passed;
    paced = h.paced;
  }

pub grants_room :
    (w : SlidingWindow) (now : ℕ) (later : List ℕ)
    → ltb (length (kept w now)) w.limit ≡ true
    → grants w (now ∷ later) ≡ now ∷ grants (record w { hits = kept w now ++ now ∷ [] }) later
unfolding grants try_acquire prune
grants_room w now later room =
    ap
      (λ (b : Bool).
        let next : SlidingWindow × Result (Unit {0}) ℕ =
          if b
          then (record w { hits = kept w now ++ now ∷ [] }, ok tt)
          else (prune w now, err (retry_at (prune w now) now)) in
        note_grant now next.1 (grants next.0 later))
      room

pub grants_full :
    (w : SlidingWindow) (now : ℕ) (later : List ℕ)
    → ltb (length (kept w now)) w.limit ≡ false
    → grants w (now ∷ later) ≡ grants (record w { hits = kept w now }) later
unfolding grants try_acquire prune
grants_full w now later full =
    ap
      (λ (b : Bool).
        let next : SlidingWindow × Result (Unit {0}) ℕ =
          if b
          then (record w { hits = kept w now ++ now ∷ [] }, ok tt)
          else (prune w now, err (retry_at (prune w now) now)) in
        note_grant now next.1 (grants next.0 later))
      full

grants-paced :
    (times : List ℕ) (w : SlidingWindow) (last : ℕ) (log gone : List ℕ)
    → Held w last log gone
    → IsMonotone last times
    → (t : ℕ) → count_if (within w.window t) (log ++ grants w times) ≤ w.limit
grants-paced [] w last log gone h m t = unfold grants in rw (append-nil log) (h.paced t)
grants-paced (now ∷ later) w last log gone h m t =
    elim (Bool-cases (ltb (length (kept w now)) w.limit)) [
      | inl room ↦
          let ih =
            grants-paced later (record w { hits = kept w now ++ now ∷ [] }) now (log ++ now ∷ []) _
              (granted_Held w now log gone m.0 h (ltb→lt _ _ room)) m.1 t in
          rw (grants_room w now later room) (
            subst (λ l. count_if (within w.window t) l ≤ w.limit) (append_assoc log (now ∷ []) _)
              ih)
      | inr full ↦ rw (grants_full w now later full) (
          grants-paced later (record w { hits = kept w now }) now log _
            (refused_Held w now log gone m.0 h) m.1 t)
    ]

-- Whatever the times at which slots are asked for, as long as they do not decrease, no half-open
-- span as long as the window holds more grants than the limit.
pub grants-le-limit :
    (limit window : ℕ) (times : List ℕ)
    → IsMonotone 0 times
    → (t : ℕ) → count_if (within window t) (grants (new limit window) times) ≤ limit
unfolding new count_if
grants-le-limit limit window times m t =
    grants-paced times _ 0 [] [] (record { split = refl; passed = tt; paced = λ t. omega arith }) m
      t
