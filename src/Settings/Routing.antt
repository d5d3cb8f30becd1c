-- ===== src/Settings/Routing.antt =====
-- The aliases of the store through any edits of src/settings.rs: every target names a provider that is there.
use llm_rate_limit_proxy.Base.{
  ◌≡◌, inl, inr, refl, sym, subst, arith, Bool, true, false, not, List, [], ◌∷◌, ◌++◌, none, Text,
  is_empty, Bool-cases, find, retain, length, ◌==◌, map, All, All-imp, All-retain, All-append, any,
  same, same_iff, on_if, on_option, on_result, unwrap_or, ◌||◌,
}
use llm_rate_limit_proxy.Config.{StoredConfig, Provider, Alias, AliasTarget}
use llm_rate_limit_proxy.Config.Urls.{trim, normalize_base_url}
use llm_rate_limit_proxy.Pool.Lanes.{lane_specs}
use llm_rate_limit_proxy.Settings.Store.{App, Answer, refused, finish, finish_serving, with_store}
use llm_rate_limit_proxy.Settings.Providers.{
  KeyAction, provider_keys, provider_of, edit_keys, named, with_keys, update_first, ProviderAction,
  add_provider, remove_provider, set_base_url, providers, new_provider, is_http, pruned,
  without_provider, known, AliasAction, upsert, remove_alias, aliases, upsert_alias, without_alias,
}

-- An alias has a target, and each target's provider is there.
pub record IsServed (ps : List Provider) (a : Alias) : Type 0 where
  pub some_target : is_empty a.targets ≡ false
  pub each : All (λ (t : AliasTarget). known ps t ≡ true) a.targets

unfoldable pub IsRouted : StoredConfig → Type 0
IsRouted sc = All (IsServed sc.providers) sc.aliases

unfoldable pub IsRoutedIn : App × Answer → Type 0
IsRoutedIn r = IsRouted r.0.store

any-append :
    (p : Provider → Bool) (xs ys : List Provider) → any p xs ≡ true → any p (xs ++ ys) ≡ true
unfolding any
any-append p [] ys h = absurd (ground arith)
any-append p (x ∷ xs) ys h = ground (arith, any-append p xs ys)

any-update_first :
    (n name : Text) (f : Provider → Provider) (ps : List Provider)
    → ((p : Provider) → (f p).name ≡ p.name)
    → any (named n) ps ≡ true
    → any (named n) (update_first name f ps) ≡ true
unfolding any update_first named
any-update_first n name f [] keeps h = absurd (ground arith)
any-update_first n name f (p ∷ ps) keeps h = elim (Bool-cases (same p.name name)) [
  | inl e ↦ rw (e) (subst (λ (m : Text). (same m n || any (named n) ps) ≡ true) (sym (keeps p)) h)
  | inr e ↦ rw (e) (let rest = any-update_first n name f ps keeps in ground arith)
]

any-retain_other :
    (n name : Text) (ps : List Provider)
    → same n name ≡ false
    → any (named n) ps ≡ true
    → any (named n) (retain (λ p. not (named name p)) ps) ≡ true
unfolding any retain named
any-retain_other n name [] ne h = absurd (ground arith)
any-retain_other n name (p ∷ ps) ne h = elim (Bool-cases (same p.name name)) [
  | inl e ↦ rw (e) (
      any-retain_other n name ps ne
        (ground (arith, same_iff p.name name, same_iff p.name n, same_iff n name)))
  | inr e ↦ rw (e) (let rest = any-retain_other n name ps ne in ground arith)
]

IsServed-more :
    (ps qs : List Provider)
    → ((n : Text) → any (named n) ps ≡ true → any (named n) qs ≡ true)
    → (a : Alias) → IsServed ps a
    → IsServed qs a
unfolding known
IsServed-more ps qs more a h = record {
  some_target = h.some_target;
  each = All-imp (λ (t : AliasTarget) k. more t.provider k) a.targets h.each;
}

-- The providers change, and none goes.
IsRouted-more :
    (app : App) (qs : List Provider)
    → ((n : Text) → any (named n) app.store.providers ≡ true → any (named n) qs ≡ true)
    → IsRouted app.store
    → IsRouted (record (app.store) { providers = qs })
unfolding IsRouted
IsRouted-more app qs more h =
    All-imp (IsServed-more app.store.providers qs more) app.store.aliases h

finish_serving-IsRouted :
    (saves : Bool) (app : App) (sc : StoredConfig)
    → IsRouted sc
    → IsRoutedIn (finish_serving saves (with_store app sc))
unfolding IsRoutedIn finish_serving finish with_store
finish_serving-IsRouted saves app sc h = elim (Bool-cases (is_empty (lane_specs sc))) [
  | inl e ↦ rw (e) h
  | inr e ↦ elim (Bool-cases saves) [ inl s ↦ rw (e, s) h | inr s ↦ rw (e, s) h ]
]

finish-IsRouted :
    (saves : Bool) (app : App) (sc : StoredConfig)
    → IsRouted sc
    → IsRoutedIn (finish saves (with_store app sc))
unfolding IsRoutedIn finish with_store
finish-IsRouted true app sc h = h
finish-IsRouted false app sc h = h

refused-IsRouted : (app : App) (e : Text) → IsRouted app.store → IsRoutedIn (app, refused e)
unfolding IsRoutedIn
refused-IsRouted app e h = h

provider_keys-IsRouted :
    (saves : Bool) (action : KeyAction) (app : App)
    → IsRouted app.store
    → IsRoutedIn (provider_keys saves action app)
unfolding provider_keys with_keys
provider_keys-IsRouted saves action app h =
    on_option IsRoutedIn (find (named (provider_of action)) app.store.providers) _ _
      (λ _. refused-IsRouted app _ h)
      (λ p _.
        on_result IsRoutedIn (edit_keys action p.keys) _ _ (λ e _. refused-IsRouted app _ h)
          (λ keys _. finish_serving-IsRouted saves app _ (
            IsRouted-more app _
              (λ n. any-update_first n (provider_of action) _ app.store.providers (λ p. refl)) h)))

-- The targets that survive the removal of a provider are served by the others.
targets-kept :
    (name : Text) (ps : List Provider) (ts : List AliasTarget)
    → All (λ (t : AliasTarget). known ps t ≡ true) ts
    → All
        (λ (t : AliasTarget). known (retain (λ p. not (named name p)) ps) t ≡ true)
        (retain (λ t. not (same t.provider name)) ts)
unfolding retain known
targets-kept name ps [] h = tt
targets-kept name ps (t ∷ ts) h = elim (Bool-cases (same t.provider name)) [
  | inl e ↦ rw (e) (targets-kept name ps ts h.1)
  | inr e ↦ rw (e) (any-retain_other t.provider name ps e h.0, targets-kept name ps ts h.1)
]

aliases-kept :
    (name : Text) (ps : List Provider) (xs : List Alias)
    → All (IsServed ps) xs
    → All
        (IsServed (retain (λ p. not (named name p)) ps))
        (retain (λ a. not (is_empty a.targets)) (map (pruned name) xs))
unfolding retain pruned
aliases-kept name ps [] h = tt
aliases-kept name ps (a ∷ xs) h =
    elim (Bool-cases (is_empty (retain (λ t. not (same t.provider name)) a.targets))) [
      | inl e ↦ rw (e) (aliases-kept name ps xs h.1)
      | inr e ↦ rw (e) (
        record { some_target = e; each = targets-kept name ps a.targets h.0.each },
        aliases-kept name ps xs h.1,
      )
    ]

removed :
    (name : Text) (app : App) → IsRouted app.store → IsRouted (without_provider name app.store)
unfolding IsRouted without_provider
removed name app h = aliases-kept name app.store.providers app.store.aliases h

providers-IsRouted :
    (saves : Bool) (action : ProviderAction) (app : App)
    → IsRouted app.store
    → IsRoutedIn (providers saves action app)
unfolding providers
providers-IsRouted saves (add_provider name base_url key rpm protocol) app h =
    on_result IsRoutedIn
      (new_provider (trim name) (normalize_base_url base_url) (trim key) (unwrap_or rpm 40) protocol
        app.store.providers)
      _ _ (λ e _. refused-IsRouted app _ h)
      (λ p _.
        finish_serving-IsRouted saves app _
          (IsRouted-more app _ (λ n. any-append (named n) app.store.providers (p ∷ [])) h))
providers-IsRouted saves (remove_provider name) app h =
    on_if IsRoutedIn
      (length (retain (λ p. not (named name p)) app.store.providers) == length app.store.providers)
      _ _ (λ _. refused-IsRouted app _ h)
      (λ _.
        finish_serving-IsRouted saves app (without_provider name app.store) (removed name app h))
providers-IsRouted saves (set_base_url name base_url) app h =
    on_if IsRoutedIn (is_http (normalize_base_url base_url)) _ _
      (λ _.
        on_option IsRoutedIn (find (named name) app.store.providers) _ _
          (λ _. refused-IsRouted app _ h)
          (λ p _. finish_serving-IsRouted saves app _ (
            IsRouted-more app _ (λ n. any-update_first n name _ app.store.providers (λ p. refl))
              h)))
      (λ _. refused-IsRouted app _ h)

find-none :
    (ps : List Provider) (ts : List AliasTarget)
    → find (λ t. not (known ps t)) ts ≡ none
    → All (λ (t : AliasTarget). known ps t ≡ true) ts
unfolding find
find-none ps [] h = tt
find-none ps (t ∷ ts) h = (ground arith, find-none ps ts (ground arith))

upserted :
    (name : Text) (targets : List AliasTarget) (app : App)
    → is_empty targets ≡ false
    → find (λ t. not (known app.store.providers t)) targets ≡ none
    → IsRouted app.store
    → IsRouted (record (app.store) {
      aliases =
          without_alias name app.store.aliases ++ record { name = name; targets = targets } ∷ [];
    })
unfolding IsRouted
upserted name targets app full here h =
    All-append (IsServed app.store.providers) (without_alias name app.store.aliases) _
      (All-retain (IsServed app.store.providers) (λ a. not (same a.name name)) app.store.aliases h)
      (record { some_target = full; each = find-none app.store.providers targets here }, tt)

dropped :
    (name : Text) (app : App)
    → IsRouted app.store
    → IsRouted (record (app.store) { aliases = without_alias name app.store.aliases })
unfolding IsRouted
dropped name app h =
    All-retain (IsServed app.store.providers) (λ a. not (same a.name name)) app.store.aliases h

aliases-IsRouted :
    (saves : Bool) (action : AliasAction) (app : App)
    → IsRouted app.store
    → IsRoutedIn (aliases saves action app)
unfolding aliases upsert_alias
aliases-IsRouted saves (upsert name targets) app h =
    on_if IsRoutedIn (is_empty (trim name)) _ _ (λ _. refused-IsRouted app _ h)
      (λ _.
        on_if IsRoutedIn (is_empty targets) _ _ (λ _. refused-IsRouted app _ h)
          (λ full.
            on_option IsRoutedIn (find (λ t. not (known app.store.providers t)) targets) _ _
              (λ all. finish-IsRouted saves app _ (upserted (trim name) targets app full all h))
              (λ t _. refused-IsRouted app _ h)))
aliases-IsRouted saves (remove_alias name) app h =
    on_if IsRoutedIn (length (without_alias name app.store.aliases) == length app.store.aliases) _ _
      (λ _. refused-IsRouted app _ h) (λ _. finish-IsRouted saves app _ (dropped name app h))

-- An edit of what routes requests, with the outcome of its save.
pub data Edit : Type 0 where
  of_keys : Bool → KeyAction → Edit
  of_providers : Bool → ProviderAction → Edit
  of_aliases : Bool → AliasAction → Edit

unfoldable pub edit : Edit → App → App × Answer
edit (of_keys saves action) app = provider_keys saves action app
edit (of_providers saves action) app = providers saves action app
edit (of_aliases saves action) app = aliases saves action app

unfoldable pub edit_all : List Edit → App → App
unfolding edit
edit_all [] app = app
edit_all (e ∷ es) app = edit_all es (edit e app).0

-- Through any edits of keys, providers and aliases, accepted, refused or not saved, every alias keeps a
-- target, and every target names a provider of the store.
pub edit_all-IsRouted :
    (es : List Edit) (app : App) → IsRouted app.store → IsRouted (edit_all es app).store
unfolding edit_all edit IsRoutedIn
edit_all-IsRouted [] app h = h
edit_all-IsRouted (of_keys saves action ∷ es) app h =
    edit_all-IsRouted es (provider_keys saves action app).0
      (provider_keys-IsRouted saves action app h)
edit_all-IsRouted (of_providers saves action ∷ es) app h =
    edit_all-IsRouted es (providers saves action app).0 (providers-IsRouted saves action app h)
edit_all-IsRouted (of_aliases saves action ∷ es) app h =
    edit_all-IsRouted es (aliases saves action app).0 (aliases-IsRouted saves action app h)
