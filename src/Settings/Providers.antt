-- ===== src/Settings/Providers.antt =====
-- `provider_keys`, `providers` and `aliases` of src/settings.rs.
use llm_rate_limit_proxy.Base.{
  ℕ, Bool, true, false, not, List, [], ◌∷◌, ◌++◌, map, Option, none, some, Text, codes, same, leb,
  ◌==◌, if◌then◌else◌, ◌||◌, Result, ok, err, any, find, retain, is_empty, length, get_elem?, set,
  remove_at, unwrap_or, strip_prefix,
}
use llm_rate_limit_proxy.Config.{StoredConfig, Provider, ProviderKey, Protocol, Alias, AliasTarget}
use llm_rate_limit_proxy.Config.Urls.{trim, normalize_base_url}
use llm_rate_limit_proxy.Settings.Store.{
  App, Answer, refused, finish, with_store, finish_serving, check_rpm,
}

pub data KeyAction : Type 0 where
  add : Text → Text → Option ℕ → KeyAction
  remove : Text → ℕ → KeyAction
  update : Text → ℕ → Option Bool → Option ℕ → KeyAction

unfoldable pub named : Text → Provider → Bool
named name p = same p.name name

unfoldable pub provider_of : KeyAction → Text
provider_of (add provider key rpm) = provider
provider_of (remove provider index) = provider
provider_of (update provider index enabled rpm) = provider

abbrev pub fresh_key : Text → ℕ → ProviderKey
fresh_key key rpm = record { key = key; enabled = true; rpm = rpm; owner = [] }

unfoldable pub add_key : Text → ℕ → List ProviderKey → Result (List ProviderKey) Text
unfolding fresh_key
add_key key rpm keys =
    if is_empty key
    then err (codes "key must not be empty")
    else if any (λ k. same k.key key) keys
    then err (codes "that key is already in the pool")
    else elim (check_rpm rpm) [ some e ↦ err e | none ↦ ok (keys ++ fresh_key key rpm ∷ []) ]

abbrev pub enabling : Option Bool → ProviderKey → ProviderKey
enabling enabled k = record k { enabled = unwrap_or enabled k.enabled }

unfoldable pub update_key : ProviderKey → Option Bool → Option ℕ → Result ProviderKey Text
update_key k enabled none = ok (enabling enabled k)
update_key k enabled (some rpm) = elim (check_rpm rpm) [
  | some e ↦ err e
  | none ↦ ok (enabling enabled (record k { rpm = rpm }))
]

-- What an action makes of the keys of its provider.
unfoldable pub edit_keys : KeyAction → List ProviderKey → Result (List ProviderKey) Text
unfolding add_key update_key
edit_keys (add provider key rpm) keys = add_key (trim key) (unwrap_or rpm 40) keys
edit_keys (remove provider index) keys =
    if leb (length keys) index
    then err (codes "no key at that position")
    else ok (remove_at index keys)
edit_keys (update provider index enabled rpm) keys = elim (get_elem? keys index) [
  | none ↦ err (codes "no key at that position")
  | some k ↦ elim (update_key k enabled rpm) [ err e ↦ err e | ok k' ↦ ok (set keys index k') ]
]

-- `iter_mut().find`: the first provider of that name changes.
unfoldable pub update_first : Text → (Provider → Provider) → List Provider → List Provider
unfolding named
update_first name f [] = []
update_first name f (p ∷ ps) = if named name p then f p ∷ ps else p ∷ update_first name f ps

unfoldable pub with_keys : App → Text → List ProviderKey → App
unfolding with_store
with_keys app name keys = with_store app (record (app.store) {
  providers = update_first name (λ p. record p { keys = keys }) app.store.providers;
})

unfoldable pub provider_keys : Bool → KeyAction → App → App × Answer
provider_keys saves action app = elim (find (named (provider_of action)) app.store.providers) [
  | none ↦ (app, refused (codes "no provider named " ++ provider_of action))
  | some p ↦ elim (edit_keys action p.keys) [
    | err e ↦ (app, refused e)
    | ok keys ↦ finish_serving saves (with_keys app (provider_of action) keys)
  ]
]

pub data ProviderAction : Type 0 where
  add_provider : Text → Text → Text → Option ℕ → Protocol → ProviderAction
  remove_provider : Text → ProviderAction
  set_base_url : Text → Text → ProviderAction

-- `http://` or `https://` in front.
unfoldable pub is_http : Text → Bool
is_http url = starts (codes "http://") || starts (codes "https://")
  where
    starts : Text → Bool
    starts prefix = elim (strip_prefix prefix url) [ none ↦ false | some _ ↦ true ]

-- The new provider of checked arguments, the name and the key trimmed, the URL normalized.
unfoldable pub new_provider :
    Text → Text → Text → ℕ → Protocol → List Provider → Result Provider Text
new_provider name base_url key rpm protocol providers =
    if is_empty name
    then err (codes "provider name must not be empty")
    else if is_empty key
    then err (codes "a provider needs at least one key to be useful")
    else if any (named name) providers
    then err (codes "a provider with that name already exists")
    else elim (check_rpm rpm) [
      | some e ↦ err e
      | none ↦
          if is_http base_url
          then ok (record {
            name = name;
            base_url = base_url;
            keys = fresh_key key rpm ∷ [];
            protocol = protocol;
          })
          else err (codes "base_url must start with http:// or https://")
    ]

unfoldable pub pruned : Text → Alias → Alias
pruned name a = record a { targets = retain (λ t. not (same t.provider name)) a.targets }

unfoldable pub without_provider : Text → StoredConfig → StoredConfig
unfolding pruned named
without_provider name sc = record sc {
  providers = retain (λ p. not (named name p)) sc.providers;
  aliases = retain (λ a. not (is_empty a.targets)) (map (pruned name) sc.aliases);
}

unfoldable pub providers : Bool → ProviderAction → App → App × Answer
unfolding with_store new_provider
providers saves (add_provider name base_url key rpm protocol) app =
    elim (new_provider (trim name) (normalize_base_url base_url) (trim key) (unwrap_or rpm 40)
      protocol app.store.providers) [
        | err e ↦ (app, refused e)
        | ok p ↦
            finish_serving saves
              (with_store app (record (app.store) { providers = app.store.providers ++ p ∷ [] }))
      ]
providers saves (remove_provider name) app =
    if length (retain (λ p. not (named name p)) app.store.providers) == length app.store.providers
    then (app, refused (codes "no provider by that name"))
    else finish_serving saves (with_store app (without_provider name app.store))
providers saves (set_base_url name base_url) app =
    if is_http (normalize_base_url base_url)
    then (elim (find (named name) app.store.providers) [
      | none ↦ (app, refused (codes "no provider by that name"))
      | some _ ↦ finish_serving saves (
          with_store app (record (app.store) {
            providers =
                update_first name (λ p. record p { base_url = normalize_base_url base_url })
                  app.store.providers;
          }))
    ])
    else (app, refused (codes "base_url must start with http:// or https://"))

pub data AliasAction : Type 0 where
  upsert : Text → List AliasTarget → AliasAction
  remove_alias : Text → AliasAction

unfoldable pub known : List Provider → AliasTarget → Bool
known ps t = any (named t.provider) ps

abbrev pub without_alias : Text → List Alias → List Alias
without_alias name xs = retain (λ a. not (same a.name name)) xs

unfoldable pub upsert_alias : Bool → Text → List AliasTarget → App → App × Answer
unfolding with_store
upsert_alias saves name targets app =
    if is_empty name
    then (app, refused (codes "alias name must not be empty"))
    else if is_empty targets
    then (app, refused (codes "an alias needs at least one target to route to"))
    else elim (find (λ t. not (known app.store.providers t)) targets) [
      | some missing ↦ (app, refused (codes "no provider named " ++ missing.provider))
      | none ↦ finish saves (
          with_store app (record (app.store) {
            aliases =
                without_alias name app.store.aliases
                ++ record { name = name; targets = targets } ∷ [];
          }))
    ]

unfoldable pub aliases : Bool → AliasAction → App → App × Answer
unfolding with_store upsert_alias
aliases saves (upsert name targets) app = upsert_alias saves (trim name) targets app
aliases saves (remove_alias name) app =
    if length (without_alias name app.store.aliases) == length app.store.aliases
    then (app, refused (codes "no alias by that name"))
    else finish saves
        (with_store app (record (app.store) { aliases = without_alias name app.store.aliases }))
