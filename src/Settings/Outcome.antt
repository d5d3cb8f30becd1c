-- ===== src/Settings/Outcome.antt =====
-- What the answer of `provider_keys` and `providers` in src/settings.rs says about the store, the disk and
-- the pool.
use llm_rate_limit_proxy.Base.{
  ◌≡◌, ◌⊎◌, inl, inr, refl, ap, arith, Bool, true, false, List, [], ◌∷◌, some, Text, unwrap_or,
  is_empty, Bool-cases, find, retain, not, length, ◌==◌, on_option, on_result, on_if,
}
use llm_rate_limit_proxy.Config.{StoredConfig}
use llm_rate_limit_proxy.Config.Urls.{trim, normalize_base_url}
use llm_rate_limit_proxy.Pool.Lane.{LaneSpec}
use llm_rate_limit_proxy.Pool.Lanes.{lane_specs, rebuild}
use llm_rate_limit_proxy.Settings.Store.{
  App, Answer, accepted, save_failed, refused, forbidden, finish, finish_serving, with_store,
}
use llm_rate_limit_proxy.Settings.Providers.{
  KeyAction, provider_keys, provider_of, edit_keys, named, with_keys, ProviderAction, add_provider,
  remove_provider, set_base_url, providers, new_provider, is_http, known, without_alias,
  AliasAction, upsert, remove_alias, aliases, upsert_alias,
}

-- Accepted: the new store is on the disk, the pool is rebuilt from it, and it has a key to serve with.
-- Otherwise the disk and the pool are as before; and so is the store after a refusal, unless it now has no
-- key to serve with.
unfoldable pub IsOutcome : App → App × Answer → Type 0
IsOutcome app (app', accepted) =
    (app'.disk ≡ some app'.store)
    × (app'.pool ≡ rebuild app.pool (lane_specs app'.store))
    × (is_empty (lane_specs app'.store) ≡ false)
IsOutcome app (app', save_failed) = (app'.disk ≡ app.disk) × (app'.pool ≡ app.pool)
IsOutcome app (app', refused e) =
    (app'.disk ≡ app.disk)
    × (app'.pool ≡ app.pool)
    × ((app'.store ≡ app.store) ⊎ (is_empty (lane_specs app'.store) ≡ true))
IsOutcome app (app', forbidden e) = app' ≡ app

finish_serving-IsOutcome :
    (saves : Bool) (app : App) (store : StoredConfig)
    → IsOutcome app (finish_serving saves (with_store app store))
unfolding IsOutcome finish_serving finish with_store
finish_serving-IsOutcome saves app store = elim (Bool-cases (is_empty (lane_specs store))) [
  | inl e ↦ rw (e) (refl, refl, inr e)
  | inr e ↦ elim (Bool-cases saves) [
    | inl s ↦ rw (e, s) (refl, refl, e)
    | inr s ↦ rw (e, s) (refl, refl)
  ]
]

refused-IsOutcome : (app : App) (e : Text) → IsOutcome app (app, refused e)
unfolding IsOutcome
refused-IsOutcome app e = (refl, refl, inl refl)

-- The answer of `provider_keys` tells what happened to the store, the disk and the pool.
pub provider_keys-IsOutcome :
    (saves : Bool) (action : KeyAction) (app : App) → IsOutcome app (provider_keys saves action app)
unfolding provider_keys with_keys
provider_keys-IsOutcome saves action app =
    on_option (IsOutcome app) (find (named (provider_of action)) app.store.providers) _ _
      (λ _. refused-IsOutcome app _)
      (λ p _.
        on_result (IsOutcome app) (edit_keys action p.keys) _ _ (λ e _. refused-IsOutcome app _)
          (λ keys _. finish_serving-IsOutcome saves app _))

-- The answer of `providers` tells what happened to the store, the disk and the pool.
pub providers-IsOutcome :
    (saves : Bool) (action : ProviderAction) (app : App)
    → IsOutcome app (providers saves action app)
unfolding providers
providers-IsOutcome saves (add_provider name base_url key rpm protocol) app =
    on_result (IsOutcome app)
      (new_provider (trim name) (normalize_base_url base_url) (trim key) (unwrap_or rpm 40) protocol
        app.store.providers)
      _ _ (λ e _. refused-IsOutcome app _) (λ p _. finish_serving-IsOutcome saves app _)
providers-IsOutcome saves (remove_provider name) app =
    on_if (IsOutcome app)
      (length (retain (λ p. not (named name p)) app.store.providers) == length app.store.providers)
      _ _ (λ _. refused-IsOutcome app _) (λ _. finish_serving-IsOutcome saves app _)
providers-IsOutcome saves (set_base_url name base_url) app =
    on_if (IsOutcome app) (is_http (normalize_base_url base_url)) _ _
      (λ _.
        on_option (IsOutcome app) (find (named name) app.store.providers) _ _
          (λ _. refused-IsOutcome app _) (λ p _. finish_serving-IsOutcome saves app _))
      (λ _. refused-IsOutcome app _)

empty-nil : (specs : List LaneSpec) → is_empty specs ≡ true → specs ≡ []
empty-nil [] h = refl
empty-nil (s ∷ specs) h = absurd (ground arith)

-- No lane is left, and a store without a usable key is on the disk.
unfoldable pub IsOutOfService : App → Type 0
IsOutOfService app =
    (app.pool.lanes ≡ [])
    × ((store : StoredConfig) × (app.disk ≡ some store) × (is_empty (lane_specs store) ≡ true))

unfoldable pub IsStop : App × Answer → Type 0
IsStop r = r.1 ≡ accepted → IsOutOfService r.0

finish-IsStop :
    (app : App) (store : StoredConfig)
    → is_empty (lane_specs store) ≡ true
    → IsStop (finish true (with_store app store))
unfolding IsStop IsOutOfService finish with_store rebuild
finish-IsStop app store empty _ = (
  ap (λ (specs : List LaneSpec). (rebuild app.pool specs).lanes)
      (empty-nil (lane_specs store) empty),
  (store, refl, empty),
)

refused-IsStop : (app : App) (e : Text) → IsStop (app, refused e)
unfolding IsStop
refused-IsStop app e h = absurd (ground arith)

aliases-IsStop :
    (action : AliasAction) (app : App)
    → is_empty (lane_specs app.store) ≡ true
    → IsStop (aliases true action app)
unfolding aliases upsert_alias lane_specs
aliases-IsStop (upsert name targets) app empty =
    on_if IsStop (is_empty (trim name)) _ _ (λ _. refused-IsStop app _)
      (λ _.
        on_if IsStop (is_empty targets) _ _ (λ _. refused-IsStop app _)
          (λ _.
            on_option IsStop (find (λ t. not (known app.store.providers t)) targets) _ _
              (λ _. finish-IsStop app _ empty) (λ t _. refused-IsStop app _)))
aliases-IsStop (remove_alias name) app empty =
    on_if IsStop (length (without_alias name app.store.aliases) == length app.store.aliases) _ _
      (λ _. refused-IsStop app _) (λ _. finish-IsStop app _ empty)

-- Once the store in memory has no usable key, any alias edit that is accepted saves such a store and takes
-- every lane out of the pool.
pub aliases-empties :
    (action : AliasAction) (app : App)
    → is_empty (lane_specs app.store) ≡ true
    → (aliases true action app).1 ≡ accepted
    → IsOutOfService (aliases true action app).0
unfolding IsStop
aliases-empties action app empty h = aliases-IsStop action app empty h
