-- ===== src/Models/Merge.antt =====
-- `providers_offering`, `extract` and `merge` of src/models.rs.
use llm_rate_limit_proxy.Base.{
  ap, ◌∙◌, map, ℕ, ◌≡◌, inl, inr, refl, sym, subst, arith, Bool, true, false, List, [], ◌∷◌, ◌++◌,
  Option, none, some, Text, codes, if◌then◌else◌, filter_map, unwrap_or, map_or, is_some_and, any,
  same, same_iff, Bool-cases, All, In, here, there, All-In, All-append, In-append_left,
  In-append_right, on_if,
}
use llm_rate_limit_proxy.Config.{Alias}
use llm_rate_limit_proxy.Json.{Json, str_at, array_at}
use llm_rate_limit_proxy.Models.{Entry, Catalog, Limits, ceiling_of}

-- `before` is the order of strings, by their bytes.
module _ (before : Text → Text → Bool) where
  unfoldable pub insert_sorted : Text → List Text → List Text
  insert_sorted x [] = x ∷ []
  insert_sorted x (y ∷ ys) = if before y x then y ∷ insert_sorted x ys else x ∷ y ∷ ys

  unfoldable pub sort : List Text → List Text
  unfolding insert_sorted
  sort [] = []
  sort (x ∷ xs) = insert_sorted x (sort xs)

module _ {V : Type 0} (j : Json V) where
  abbrev pub id_of : V → Option Text
  id_of v = str_at j (codes "id") v

  unfoldable pub offers : Text → Text × Entry V → Option Text
  offers model (name, entry) =
      if any (λ v. is_some_and (id_of v) (λ i. same i model)) entry.models then some name else none

  unfoldable pub providers_offering : (before : Text → Text → Bool) → Text → Catalog V → List Text
  unfolding offers sort
  providers_offering before model c = sort before (filter_map (offers model) c.entries)

  unfoldable pub extract : V → List V
  extract body = unwrap_or (array_at j (codes "data") body) []

  -- The names that were seen, and the entries to show. `alias_entry` and `with_ceiling` are built by `json!`.
  module _ (alias_entry : Text → V) (with_ceiling : ℕ → V → V) where
    unfoldable pub annotate : Limits → Text → V → V
    annotate limits id v = map_or (ceiling_of id limits) v (λ n. with_ceiling n v)

    unfoldable pub show : Limits → Text → V → List Text × List V → List Text × List V
    unfolding annotate
    show limits id v (seen, shown) =
        if any (λ s. same s id) seen
        then (seen, shown)
        else (seen ++ id ∷ [], shown ++ annotate limits id v ∷ [])

    unfoldable pub add_aliases : Limits → List Alias → List Text × List V → List Text × List V
    unfolding show
    add_aliases limits [] acc = acc
    add_aliases limits (a ∷ as') acc =
        add_aliases limits as' (show limits a.name (alias_entry a.name) acc)

    unfoldable pub add_entries : Limits → List V → List Text × List V → List Text × List V
    unfolding show
    add_entries limits [] acc = acc
    add_entries limits (v ∷ vs) acc =
        add_entries limits vs (map_or (id_of v) acc (λ id. show limits id v acc))

    abbrev pub flatten : List (List V) → List V
    flatten [] = []
    flatten (c ∷ cs) = c ++ flatten cs

    -- The names with the entries of `data`, in its order.
    unfoldable pub merge : List (List V) → List Alias → Limits → List Text × List V
    unfolding add_aliases add_entries
    merge catalogs aliases limits =
        add_entries limits (flatten catalogs) (add_aliases limits aliases ([], []))

    -- Names without a repetition, each with an entry.
    abbrev pub Distinct : List Text → Type 0
    Distinct [] = Unit
    Distinct (x ∷ xs) = All (λ y. same x y ≡ false) xs × Distinct xs

    Distinct-snoc :
        (xs : List Text) (x : Text)
        → any (λ s. same s x) xs ≡ false
        → Distinct xs
        → Distinct (xs ++ x ∷ [])
    unfolding any
    Distinct-snoc [] x h d = (tt, tt)
    Distinct-snoc (y ∷ ys) x h d = (
      All-append (λ z. same y z ≡ false) ys (x ∷ []) d.0 (ground arith, tt),
      Distinct-snoc ys x (ground arith) d.1,
    )

    -- What `json!` builds: the entry of an alias has its name as the id, and a ceiling leaves the id alone.
    pub record KeepsId : Type 0 where
      pub id_of-alias_entry : (name : Text) → id_of (alias_entry name) ≡ some name
      pub id_of-with_ceiling : (n : ℕ) (v : V) → id_of (with_ceiling n v) ≡ id_of v

    -- The entries have the names as their ids, in the same order.
    abbrev IsShown : List Text × List V → Type 0
    IsShown acc = Distinct acc.0 × (map id_of acc.1 ≡ map some acc.0)

    map-snoc :
        {A B : Type 0} (f : A → B) (xs : List A) (x : A)
        → map f (xs ++ x ∷ []) ≡ map f xs ++ f x ∷ []
    map-snoc f [] x = refl
    map-snoc f (y ∷ ys) x = ap (◌∷◌ (f y)) (map-snoc f ys x)

    id_of-annotate :
        (law : KeepsId) (limits : Limits) (id : Text) (v : V)
        → id_of (annotate limits id v) ≡ id_of v
    unfolding annotate
    id_of-annotate law limits id v = go (ceiling_of id limits)
      where
        go : (o : Option ℕ) → id_of (map_or o v (λ n. with_ceiling n v)) ≡ id_of v
        go none = refl
        go (some n) = law.id_of-with_ceiling n v

    show-IsShown :
        (law : KeepsId) (limits : Limits) (id : Text) (v : V) (acc : List Text × List V)
        → id_of v ≡ some id
        → IsShown acc
        → IsShown (show limits id v acc)
    unfolding show
    show-IsShown law limits id v (seen, shown) own h =
        on_if IsShown (any (λ s. same s id) seen) (seen, shown)
          (seen ++ id ∷ [], shown ++ annotate limits id v ∷ []) (λ e. h)
          (λ e. (
            Distinct-snoc seen id e h.0,
            map-snoc id_of shown (annotate limits id v)
                ∙ ap (λ (o : Option Text). map id_of shown ++ o ∷ [])
                    (id_of-annotate law limits id v ∙ own)
                ∙ ap (λ (os : List (Option Text)). os ++ some id ∷ []) h.1
                ∙ sym (map-snoc some seen id),
          ))

    -- A name that was seen stays seen, and the one that is shown is.
    show-In :
        (limits : Limits) (id other : Text) (v : V) (acc : List Text × List V)
        → In other acc.0
        → In other (show limits id v acc).0
    unfolding show
    show-In limits id other v (seen, shown) m =
        on_if (λ (x : List Text × List V). In other x.0) (any (λ s. same s id) seen) (seen, shown)
          (seen ++ id ∷ [], shown ++ annotate limits id v ∷ []) (λ e. m)
          (λ e. In-append_left (id ∷ []) m)

    any-In : (id : Text) (xs : List Text) → any (λ s. same s id) xs ≡ true → In id xs
    unfolding any
    any-In id [] h = absurd (ground arith)
    any-In id (x ∷ xs) h = elim (Bool-cases (same x id)) [
      | inl e ↦ subst (λ y. In y (x ∷ xs)) ((same_iff x id).0 e) here
      | inr e ↦ there (any-In id xs (ground arith))
    ]

    show-In_self :
        (limits : Limits) (id : Text) (v : V) (acc : List Text × List V)
        → In id (show limits id v acc).0
    unfolding show
    show-In_self limits id v (seen, shown) =
        on_if (λ (x : List Text × List V). In id x.0) (any (λ s. same s id) seen) (seen, shown)
          (seen ++ id ∷ [], shown ++ annotate limits id v ∷ []) (λ e. any-In id seen e)
          (λ e. In-append_right seen here)

    add_aliases-IsShown :
        (law : KeepsId) (limits : Limits) (xs : List Alias) (acc : List Text × List V)
        → IsShown acc
        → IsShown (add_aliases limits xs acc)
    unfolding add_aliases
    add_aliases-IsShown law limits [] acc h = h
    add_aliases-IsShown law limits (a ∷ xs) acc h =
        add_aliases-IsShown law limits xs (show limits a.name (alias_entry a.name) acc)
          (show-IsShown law limits a.name (alias_entry a.name) acc (law.id_of-alias_entry a.name) h)

    add_entries-IsShown :
        (law : KeepsId) (limits : Limits) (vs : List V) (acc : List Text × List V)
        → IsShown acc
        → IsShown (add_entries limits vs acc)
    unfolding add_entries
    add_entries-IsShown law limits [] acc h = h
    add_entries-IsShown law limits (v ∷ vs) acc h =
        add_entries-IsShown law limits vs _ (step (id_of v) refl)
      where
        step : (o : Option Text) → id_of v ≡ o → IsShown (map_or o acc (λ id. show limits id v acc))
        step none e = h
        step (some id) e = show-IsShown law limits id v acc e h

    add_entries-In :
        (limits : Limits) (vs : List V) (acc : List Text × List V) (name : Text)
        → In name acc.0
        → In name (add_entries limits vs acc).0
    unfolding add_entries
    add_entries-In limits [] acc name m = m
    add_entries-In limits (v ∷ vs) acc name m = add_entries-In limits vs _ name (step (id_of v))
      where
        step : (o : Option Text) → In name (map_or o acc (λ id. show limits id v acc)).0
        step none = m
        step (some id) = show-In limits id name v acc m

    add_entries-In_id :
        (limits : Limits) {v : V} (name : Text) (vs : List V) (acc : List Text × List V)
        → In v vs
        → id_of v ≡ some name
        → In name (add_entries limits vs acc).0
    unfolding add_entries
    add_entries-In_id limits {v} name _ acc (here {xs = vs}) e = add_entries-In limits vs _ name (
        subst (λ (o : Option Text). In name (map_or o acc (λ id. show limits id v acc)).0) (sym e)
          (show-In_self limits name v acc))
    add_entries-In_id limits name _ acc (there {y = w} {xs = vs} m) e =
        add_entries-In_id limits name vs _ m e

    add_aliases-In :
        (limits : Limits) (xs : List Alias) (acc : List Text × List V) (name : Text)
        → In name acc.0
        → In name (add_aliases limits xs acc).0
    unfolding add_aliases
    add_aliases-In limits [] acc name m = m
    add_aliases-In limits (a ∷ xs) acc name m =
        add_aliases-In limits xs _ name (show-In limits a.name name (alias_entry a.name) acc m)

    add_aliases-In_name :
        (limits : Limits) {a : Alias} (xs : List Alias) (acc : List Text × List V)
        → In a xs
        → In a.name (add_aliases limits xs acc).0
    unfolding add_aliases
    add_aliases-In_name limits {a} _ acc (here {xs = xs}) =
        add_aliases-In limits xs _ a.name (show-In_self limits a.name (alias_entry a.name) acc)
    add_aliases-In_name limits _ acc (there {y = b} {xs = xs} m) = add_aliases-In_name limits xs _ m

    -- The name is listed, where there is one.
    abbrev pub IsListed : List Text → Option Text → Type 0
    IsListed names none = Unit
    IsListed names (some name) = In name names

    -- No two entries of the merged catalog have the same id, and there is one for every alias and for every model of
    -- every provider's catalog that has an id: the ids of its entries, in their order, are a list of names without
    -- a repetition, which has all of those. The entry built for an alias is taken to have its name as the id, and a
    -- ceiling to leave the id alone.
    pub merge-IsListed :
        (law : KeepsId) (catalogs : List (List V)) (aliases : List Alias) (limits : Limits)
        → Distinct (merge catalogs aliases limits).0
          × (map id_of (merge catalogs aliases limits).1
              ≡ map some (merge catalogs aliases limits).0)
          × All (λ (a : Alias). In a.name (merge catalogs aliases limits).0) aliases
          × All (λ v. IsListed (merge catalogs aliases limits).0 (id_of v)) (flatten catalogs)
    unfolding merge
    merge-IsListed law catalogs aliases limits =
        let named = add_aliases limits aliases ([], []) in
        let (d, e) =
          add_entries-IsShown law limits (flatten catalogs) named
            (add_aliases-IsShown law limits aliases ([], []) (tt, refl)) in
        (
          d,
          e,
          All-In aliases (λ a m.
              add_entries-In limits (flatten catalogs) named a.name
                (add_aliases-In_name limits aliases ([], []) m)),
          All-In (flatten catalogs) (λ v m. listed v m (id_of v) refl),
        )
      where
        listed :
            (v : V)
            → In v (flatten catalogs)
            → (o : Option Text) → id_of v ≡ o
            → IsListed
                (add_entries limits (flatten catalogs) (add_aliases limits aliases ([], []))).0
                o
        listed v m none e = tt
        listed v m (some name) e =
            add_entries-In_id limits name (flatten catalogs) (add_aliases limits aliases ([], [])) m
              e
