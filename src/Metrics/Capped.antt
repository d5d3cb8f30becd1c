-- ===== src/Metrics/Capped.antt =====
-- The maps of src/metrics.rs whose labels come from callers stay small.
use llm_rate_limit_proxy.Base.{
  suc, ◌≤◌, ◌<◌, ◌≡◌, ◌⊎◌, inl, inr, ap, arith, true, false, List, [], ◌∷◌, Option, none, some,
  Text, codes, ltb, if◌then◌else◌, length, unwrap_or, Bool-cases, same, same_refl, ◌∙◌, ltb→lt,
}
use llm_rate_limit_proxy.Base.Assoc.{get, insert, contains_key, get-insert, length-insert}
use llm_rate_limit_proxy.Metrics.{max_series, sanitize, capped, upsert, bump}

module _ {ℓ} {V : Type ℓ} where
  -- At most one entry more than the cap, and then one of them is `other`.
  unfoldable pub IsSmall : List (Text × V) → Type 0
  IsSmall m =
      (length m ≤ max_series)
      ⊎ ((length m ≤ suc max_series) × (contains_key (codes "other") m ≡ true))

  contains-get :
      (k : Text) (m : List (Text × V)) (v : V) → get k m ≡ some v → contains_key k m ≡ true
  unfolding contains_key
  contains-get k m v e = ap (λ (o : Option V). elim o [ none ↦ false | some _ ↦ true ]) e

  contains-insert_self :
      (k : Text) (v : V) (m : List (Text × V)) → contains_key k (insert k v m) ≡ true
  contains-insert_self k v m =
      contains-get k (insert k v m) v
        (get-insert k k v m ∙ ap (λ b. if b then some v else get k m) (same_refl k))

  contains-insert_other :
      (k j : Text) (v : V) (m : List (Text × V))
      → contains_key j m ≡ true
      → contains_key j (insert k v m) ≡ true
  unfolding contains_key
  contains-insert_other k j v m h = elim (Bool-cases (same k j)) [
    | inl e ↦
        contains-get j (insert k v m) v
          (get-insert k j v m ∙ ap (λ b. if b then some v else get j m) e)
    | inr e ↦
        ap (λ (o : Option V). elim o [ none ↦ false | some _ ↦ true ])
          (get-insert k j v m ∙ ap (λ b. if b then some v else get j m) e)
        ∙ h
  ]

  length-known :
      (k : Text) (v : V) (m : List (Text × V))
      → contains_key k m ≡ true
      → length (insert k v m) ≡ length m
  length-known k v m e = length-insert k v m ∙ ap (λ b. if b then length m else suc (length m)) e

  length-any : (k : Text) (v : V) (m : List (Text × V)) → length (insert k v m) ≤ suc (length m)
  length-any k v m = ground (arith, length-insert k v m)

  insert-known :
      (k : Text) (v : V) (m : List (Text × V))
      → contains_key k m ≡ true
      → IsSmall m
      → IsSmall (insert k v m)
  unfolding IsSmall
  insert-known k v m e (inl h) = inl (omega (arith, h, length-known k v m e))
  insert-known k v m e (inr h) =
      inr
        (omega (arith, h.0, length-known k v m e), contains-insert_other k (codes "other") v m h.1)

  insert-new :
      (k : Text) (v : V) (m : List (Text × V)) → length m < max_series → IsSmall (insert k v m)
  unfolding IsSmall
  insert-new k v m h = inl (omega (arith, h, length-any k v m))

  insert-other : (v : V) (m : List (Text × V)) → IsSmall m → IsSmall (insert (codes "other") v m)
  unfolding IsSmall
  insert-other v m (inl h) =
      inr
        (omega (arith, h, length-any (codes "other") v m), contains-insert_self (codes "other") v m)
  insert-other v m (inr h) = inr (
    omega (arith, h.0, length-known (codes "other") v m h.1),
    contains-insert_self (codes "other") v m,
  )

  capped-IsSmall :
      (k : Text) (v : V) (m : List (Text × V)) → IsSmall m → IsSmall (insert (capped m k) v m)
  unfolding capped
  capped-IsSmall k v m h = elim (Bool-cases (contains_key k m)) [
    | inl e ↦ rw (e) (insert-known k v m e h)
    | inr e ↦ elim (Bool-cases (ltb (length m) max_series)) [
      | inl l ↦ rw (e, l) (insert-new k v m (ltb→lt (length m) max_series l))
      | inr l ↦ rw (e, l) (insert-other v m h)
    ]
  ]

  bump-IsSmall :
      (label : Text) (default : V) (f : V → V) (m : List (Text × V))
      → IsSmall m
      → IsSmall (bump label default f m)
  unfolding bump upsert
  bump-IsSmall label default f m h =
      capped-IsSmall (sanitize label) (f (unwrap_or (get (capped m (sanitize label)) m) default)) m
        h

  unfoldable pub bump_all : V → List (Text × (V → V)) → List (Text × V) → List (Text × V)
  bump_all default [] m = m
  bump_all default (e ∷ es) m = bump_all default es (bump e.0 default e.1 m)

  bump_all-IsSmall :
      (default : V) (es : List (Text × (V → V))) (m : List (Text × V))
      → IsSmall m
      → IsSmall (bump_all default es m)
  unfolding bump_all
  bump_all-IsSmall default [] m h = h
  bump_all-IsSmall default (e ∷ es) m h =
      bump_all-IsSmall default es (bump e.0 default e.1 m) (bump-IsSmall e.0 default e.1 m h)

  -- Whatever labels callers send, and however many, a capped map that starts empty never holds more than
  -- one entry beyond the cap.
  pub bump_all-le-cap :
      (default : V) (es : List (Text × (V → V))) → length (bump_all default es []) ≤ suc max_series
  unfolding IsSmall
  bump_all-le-cap default es = elim (bump_all-IsSmall default es [] (inl (omega arith))) [
    | inl h ↦ omega (arith, h)
    | inr h ↦ h.0
  ]
