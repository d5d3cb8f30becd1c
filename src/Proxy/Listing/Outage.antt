-- ===== src/Proxy/Listing/Outage.antt =====
-- What becomes of the merged catalog while providers cannot be reached.
use llm_rate_limit_proxy.Base.{
  true, false, Bool-cases, inl, inr, sym, Bool, ◌∙◌, if◌then◌else◌, same, All, All-imp, arith, ◌⊎◌,
  subst, same_iff, In, All-In, ℕ, ◌≡◌, refl, ap, List, [], ◌∷◌, ◌++◌, Option, none, some, Text,
  if◌then◌else◌, and_then, on_option,
}
use llm_rate_limit_proxy.Config.{Alias}
use llm_rate_limit_proxy.Json.{Json}
use llm_rate_limit_proxy.Models
use llm_rate_limit_proxy.Models.{Entry, Catalog, Limits, stale, put}
use llm_rate_limit_proxy.Models.Merge.{merge}
use llm_rate_limit_proxy.Pool.Lanes.{Pool}
use llm_rate_limit_proxy.Dispatch
use llm_rate_limit_proxy.Dispatch.{Query, Round, Answer, done, acquire_for}
use llm_rate_limit_proxy.Base.Assoc.{get-insert, get, insert}
use llm_rate_limit_proxy.Proxy.Listing.{
  Errand, Shelf, query_for, read_response, after_wait, fetch_catalog, renew, list_provider, collect,
  serve_catalog,
}

module _ {V : Type 0} where
  -- A provider whose catalog was fetched at some time.
  abbrev pub IsSeen : Catalog V → Text → Type 0
  IsSeen c provider = (models : List V) × (stale provider c ≡ some models)

  abbrev models_of : Option (Entry V) → Option (List V)
  models_of none = none
  models_of (some e) = some e.models

  stale-get :
      (provider : Text) (c : Catalog V) {o : Option (Entry V)}
      → get provider c.entries ≡ o
      → stale provider c ≡ models_of o
  unfolding stale
  stale-get provider c {o} e =
      ap
        (λ (x : Option (Entry V)). elim x as (λ _. Option (List V)) [
          | none ↦ none
          | some found ↦ some found.models
        ])
        e
      ∙ go o
    where
      go :
          (x : Option (Entry V))
          → (elim x as (λ _. Option (List V)) [ none ↦ none | some found ↦ some found.models ])
            ≡ models_of x
      go none = refl
      go (some found) = refl

  stale-put :
      (provider other : Text) (models : List V) (now : ℕ) (c : Catalog V)
      → stale other (put provider models now c)
        ≡ (if same provider other then some models else stale other c)
  unfolding put
  stale-put provider other models now c = go (same provider other) refl
    where
      new : Entry V
      new = record { fetched = now; models = models }

      found :
          (b : Bool)
          → same provider other ≡ b
          → get other (insert provider new c.entries)
            ≡ (if b then some new else get other c.entries)
      found b e =
          get-insert provider other new c.entries
          ∙ ap (λ (x : Bool). if x then some new else get other c.entries) e

      go :
          (b : Bool)
          → same provider other ≡ b
          → stale other (put provider models now c) ≡ (if b then some models else stale other c)
      go true e = stale-get other (put provider models now c) (found true e)
      go false e =
          stale-get other (put provider models now c) (found false e) ∙ sym (stale-get other c refl)

  put-IsSeen :
      (provider other : Text) (models : List V) (now : ℕ) (c : Catalog V)
      → IsSeen c other
      → IsSeen (put provider models now c) other
  put-IsSeen provider other models now c seen = elim (Bool-cases (same provider other)) [
    | inl e ↦ (
      models,
      stale-put provider other models now c
          ∙ ap (λ (b : Bool). if b then some models else stale other c) e,
    )
    | inr e ↦ (
      seen.0,
      stale-put provider other models now c
          ∙ ap (λ (b : Bool). if b then some models else stale other c) e
          ∙ seen.1,
    )
  ]

  -- A fresh copy is the one that is kept.
  fresh-stale :
      (provider : Text) (now : ℕ) (c : Catalog V) {models : List V}
      → Models.fresh provider now c ≡ some models
      → stale provider c ≡ some models
  unfolding Models.fresh stale
  fresh-stale provider now c h = ground arith

module _ {V : Type 0} (j : Json V) (hash : ℕ → Text → Text → ℕ) where
  -- The provider's request comes to an end, well or badly.
  abbrev pub Comes : Text × Errand → Type 0
  Comes e = (x : Option (List V)) × (read_response j hash e.1.response ≡ some x)

  module _ (Src : Text → List V → Type 0) where
    abbrev AllFrom : Catalog V → Type 0
    AllFrom c = (name : Text) (models : List V) → stale name c ≡ some models → Src name models

    abbrev Brings : Text × Errand → Type 0
    Brings e =
        (models : List V) → read_response j hash e.1.response ≡ some (some models) → Src e.0 models

    put-AllFrom :
        (provider : Text) (models : List V) (now : ℕ) (c : Catalog V)
        → Src provider models
        → AllFrom c
        → AllFrom (put provider models now c)
    put-AllFrom provider models now c own all name ms h = elim (Bool-cases (same provider name)) [
      | inl e ↦
          let kept : some models ≡ some ms =
            sym (ap (λ (b : Bool). if b then some models else stale name c) e)
            ∙ sym (stale-put provider name models now c)
            ∙ h in
          subst (λ n. Src n ms) ((same_iff provider name).0 e)
            (subst (Src provider) {x = models} {y = ms} (ground arith) own)
      | inr e ↦ all name ms (
          sym (ap (λ (b : Bool). if b then some models else stale name c) e)
          ∙ sym (stale-put provider name models now c)
          ∙ h)
    ]

    -- What is known after one provider: its one catalog, where it is from, and that of all that is kept.
    unfoldable Listed : Text → Catalog V → Shelf V × Option (List (List V)) → Type 0
    Listed name c x =
        (mine : List V) × (x.1 ≡ some (mine ∷ []))
        × Src name mine
        × AllFrom x.0.catalog
        × ((other : Text) → IsSeen c other → IsSeen x.0.catalog other)

    after_wait-ends :
        (deadline : Option ℕ) (answer : Answer) (e : Text × Errand) {d : ℕ}
        → deadline ≡ some d
        → Comes e
        → Brings e
        → (x : Option (List V)) × (after_wait j hash deadline answer e.1 ≡ some x)
          × ((models : List V) → x ≡ some models → Src e.0 models)
    unfolding after_wait
    after_wait-ends deadline Dispatch.waiting e limit comes brings =
        (none, rw (limit) refl, λ models h. absurd (ground arith))
    after_wait-ends deadline (done none) e limit comes brings =
        (none, refl, λ models h. absurd (ground arith))
    after_wait-ends deadline (done (some permit)) e limit comes brings =
        (comes.0, comes.1, λ models h. brings models (comes.1 ∙ ap some h))

    renewed-Listed :
        (e : Text × Errand) (x : Option (List V)) (s : Shelf V) (p : Pool)
        → IsSeen s.catalog e.0
        → AllFrom s.catalog
        → ((models : List V) → x ≡ some models → Src e.0 models)
        → Listed e.0 s.catalog (
          record { catalog = (renew j hash e.0 e.1 x s.catalog).0; pool = p },
          some (renew j hash e.0 e.1 x s.catalog).1,
        )
    unfolding Listed renew
    renewed-Listed e none s p seen all own =
        (seen.0, rw (seen.1) refl, all e.0 seen.0 seen.1, all, λ other h. h)
    renewed-Listed e (some models) s p seen all own = (
      models,
      refl,
      own models refl,
      put-AllFrom e.0 models e.1.kept_at s.catalog (own models refl) all,
      λ other h. put-IsSeen e.0 other models e.1.kept_at s.catalog h,
    )

    list_provider-Listed :
        (deadline : Option ℕ) (e : Text × Errand) (s : Shelf V) {d : ℕ}
        → deadline ≡ some d
        → Comes e
        → Brings e
        → IsSeen s.catalog e.0
        → AllFrom s.catalog
        → Listed e.0 s.catalog (list_provider j hash deadline e.0 e.1 s)
    unfolding list_provider fetch_catalog
    list_provider-Listed deadline e s limit comes brings seen all =
        let (x, ends, own) =
          after_wait-ends deadline (acquire_for hash (query_for e.0) e.1.rounds s.pool).1 e limit
            comes brings in
        on_option (Listed e.0 s.catalog) (Models.fresh e.0 e.1.looked_at s.catalog) _ _
          (λ _. rw (ends) (renewed-Listed e x s _ seen all own))
          (λ cached f.
            unfold Listed in
            (
              cached,
              refl,
              all e.0 cached (fresh-stale e.0 e.1.looked_at s.catalog f),
              all,
              λ other h. h,
            ))

    -- One catalog for each provider, in their order.
    abbrev pub AllListed : List (Text × Errand) → List (List V) → Type 0
    AllListed [] [] = Unit
    AllListed [] (c ∷ cs) = ⊥
    AllListed (e ∷ es) [] = ⊥
    AllListed (e ∷ es) (c ∷ cs) = Src e.0 c × AllListed es cs

  collect-cons :
      (deadline : Option ℕ) (e : Text × Errand) (es : List (Text × Errand)) (s : Shelf V)
      {mine others : List (List V)}
      → (list_provider j hash deadline e.0 e.1 s).1 ≡ some mine
      → (collect j hash deadline es (list_provider j hash deadline e.0 e.1 s).0).1 ≡ some others
      → (collect j hash deadline (e ∷ es) s).1 ≡ some (mine ++ others)
  unfolding collect and_then
  collect-cons deadline e es s {mine} {others} own rest =
      let here' : Shelf V × Option (List (List V)) = list_provider j hash deadline e.0 e.1 s in
      let later : Shelf V × Option (List (List V)) = collect j hash deadline es here'.0 in
      ap
        (λ (x : Option (List (List V))).
          (elim x as (λ _. Shelf V × Option (List (List V))) [
            | none ↦ (here'.0, none)
            | some got ↦ (later.0, and_then later.1 (λ others'. some (got ++ others')))
          ]).1)
        own
      ∙ ap (λ (r : Option (List (List V))). and_then r (λ others'. some (mine ++ others'))) rest

  collect-AllListed :
      (Src : Text → List V → Type 0) (deadline : Option ℕ) (es : List (Text × Errand)) (s : Shelf V)
      {d : ℕ}
      → deadline ≡ some d
      → All Comes es
      → All (Brings Src) es
      → All (λ e. IsSeen s.catalog e.0) es
      → AllFrom Src s.catalog
      → (catalogs : List (List V)) × ((collect j hash deadline es s).1 ≡ some catalogs)
        × AllListed Src es catalogs
  unfolding collect Listed
  collect-AllListed Src deadline [] s limit comes brings seen all = ([], refl, tt)
  collect-AllListed Src deadline (e ∷ es) s limit comes brings seen all =
      let (mine, own, from, all', still) =
        list_provider-Listed Src deadline e s limit comes.0 brings.0 seen.0 all in
      let (others, rest, from') =
        collect-AllListed Src deadline es (list_provider j hash deadline e.0 e.1 s).0 limit comes.1
          brings.1 (All-imp (λ e' h. still e'.0 h) es seen.1) all' in
      (mine ∷ others, collect-cons deadline e es s own rest, (from, from'))

  -- A catalog of the provider: the one that was kept, or one that its provider answered in between.
  abbrev pub IsCopy : List (Text × Errand) → Shelf V → Text → List V → Type 0
  IsCopy es s name models =
      (stale name s.catalog ≡ some models)
      ⊎ ((e : Text × Errand) × In e es
          × (e.0 ≡ name)
          × (read_response j hash e.1.response ≡ some (some models)))

  -- With a deadline, and providers whose catalogs were all fetched at some time before, the list of models is answered
  -- and has one catalog of each provider, in their order, the one kept or one just fetched: also where there is no
  -- lane for a provider, or it is out of reach, or it answers an error. Each exchange with a
  -- provider is taken to come to an end, well or badly.
  pub serve_catalog-AllListed :
      (alias_entry : Text → V) (with_ceiling : ℕ → V → V) (deadline : Option ℕ)
      (es : List (Text × Errand)) (aliases : List Alias) (limits : Limits) (s : Shelf V) {d : ℕ}
      → deadline ≡ some d
      → All Comes es
      → All (λ e. IsSeen s.catalog e.0) es
      → (catalogs : List (List V)) × ((serve_catalog j hash alias_entry with_ceiling deadline es
            aliases limits s).1
          ≡ some (merge j alias_entry with_ceiling catalogs aliases limits))
        × AllListed (IsCopy es s) es catalogs
  unfolding serve_catalog and_then
  serve_catalog-AllListed alias_entry with_ceiling deadline es aliases limits s limit comes seen =
      let (catalogs, e, listed) =
        collect-AllListed (IsCopy es s) deadline es s limit comes
          (All-In es (λ e m models h. inr (e, m, refl, h))) seen (λ name models h. inl h) in
      (catalogs, rw (e) refl, listed)
