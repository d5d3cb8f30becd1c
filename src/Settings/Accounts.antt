-- ===== src/Settings/Accounts.antt =====
-- `clients`, `users` and `limits` of src/settings.rs. The password hash, the
-- secrets and the parser of addresses come in as parameters.
use llm_rate_limit_proxy.Base.{
  ℕ, ◌-◌, ◌*◌, ◌^◌, Bool, true, false, not, List, [], ◌∷◌, ◌++◌, Option, none, some, Text, codes,
  same, ltb, ◌==◌, if◌then◌else◌, ◌&&◌, any, find, retain, is_empty, length, is_some_and, unwrap_or,
}
use llm_rate_limit_proxy.Config.{
  StoredConfig, User, Role, superuser, admin, user, ClientKey, Settings,
}
use llm_rate_limit_proxy.Config
use llm_rate_limit_proxy.Config.Urls.{trim}
use llm_rate_limit_proxy.Net.{IpAddr, parse_rule}
use llm_rate_limit_proxy.Settings.Store.{App, Answer, refused, forbidden, saved, with_store}

unfoldable pub called : Text → User → Bool
called username u = same u.username username

-- `is_admin` of the handlers, by the name of the caller.
unfoldable pub is_admin : App → Text → Bool
unfolding called
is_admin app username =
    is_some_and (find (called username) app.store.users) (λ u. Config.is_admin u.role)

pub data ClientAction : Type 0 where
  mint : Text → ClientAction
  revoke : Text → ClientAction

unfoldable pub ends_in : Text → ClientKey → Bool
ends_in last4 c = same c.last4 last4

-- `new_client_key` draws a secret; `record_of label owner` is the record that it stores of it.
unfoldable pub clients : (Text → Text → ClientKey) → Bool → Text → ClientAction → App → App × Answer
unfolding with_store saved
clients record_of saves who (mint label) app =
    if is_empty (trim label)
    then (app, refused (codes "label must not be empty"))
    else saved saves (
        with_store app
          (record (app.store) { clients = app.store.clients ++ record_of (trim label) who ∷ [] }))
clients record_of saves who (revoke last4) app = elim (find (ends_in last4) app.store.clients) [
  | none ↦ (app, refused (codes "no client key ending in that"))
  | some target ↦
      if not (same target.owner who) && not (is_admin app who)
      then (app, forbidden (codes "that client key belongs to another user"))
      else saved saves (
          with_store app (record (app.store) {
            clients = retain (λ c. not (ends_in last4 c)) app.store.clients;
          }))
]

pub data UserAction : Type 0 where
  add_user : Text → Text → Option Bool → UserAction
  remove_user : Text → UserAction
  set_password : Text → Text → UserAction

abbrev pub min_password : ℕ
min_password = 10

abbrev pub is_superuser : Role → Bool
is_superuser superuser = true
is_superuser _ = false

unfoldable pub update_user : Text → (User → User) → List User → List User
unfolding called
update_user name f [] = []
update_user name f (u ∷ us) = if called name u then f u ∷ us else u ∷ update_user name f us

unfoldable pub with_users : App → List User → App
unfolding with_store
with_users app us = with_store app (record (app.store) { users = us })

module _ (hash_password : Text → Text) where
  unfoldable pub new_user : Text → Text → Option Bool → User
  new_user username password is_admin_wanted = record {
    username = username;
    pw_hash = hash_password password;
    role = if unwrap_or is_admin_wanted false then admin else user;
  }

  unfoldable pub users : Bool → UserAction → App → App × Answer
  unfolding new_user
  users saves (add_user username password wanted) app =
      if is_empty (trim username)
      then (app, refused (codes "username must not be empty"))
      else if ltb (length password) min_password
      then (app, refused (codes "password must be at least 10 characters"))
      else if any (called (trim username)) app.store.users
      then (app, refused (codes "that username is taken"))
      else saved saves
          (with_users app (app.store.users ++ new_user (trim username) password wanted ∷ []))
  users saves (remove_user username) app = elim (find (called username) app.store.users) [
    | none ↦ (app, refused (codes "no user by that name"))
    | some u ↦
        if is_superuser u.role
        then (app, refused (codes "the superuser cannot be removed"))
        else saved saves (with_users app (retain (λ v. not (called username v)) app.store.users))
  ]
  users saves (set_password username password) app =
      if ltb (length password) min_password
      then (app, refused (codes "password must be at least 10 characters"))
      else elim (find (called username) app.store.users) [
        | none ↦ (app, refused (codes "no user by that name"))
        | some u ↦ saved saves (
            with_users app (
              update_user username (λ v. record v { pw_hash = hash_password password })
                app.store.users))
      ]

pub record LimitsReq : Type 0 where
  pub max_inflight : Option ℕ
  pub models_ttl_secs : Option ℕ
  pub history_days : Option ℕ
  pub allow_from : Option (List Text)

-- `set_retention_days`: no limit for 0 days.
unfoldable pub retention_of : ℕ → ℕ
retention_of days = if days == 0 then 2 ^ 64 - 1 else days * 86400

abbrev pub with_settings : App → Settings → App
with_settings app s = with_store app (record (app.store) { settings = s })

unfoldable pub set_max_inflight : Option ℕ → App → App
unfolding with_store
set_max_inflight none app = app
set_max_inflight (some v) app = with_settings app (record (app.store.settings) { max_inflight = v })

unfoldable pub set_models_ttl : Option ℕ → App → App
unfolding with_store
set_models_ttl none app = app
set_models_ttl (some v) app =
    record (with_settings app (record (app.store.settings) { models_ttl_secs = v })) {
      ttl_secs = v;
    }

unfoldable pub set_history : Option ℕ → App → App
unfolding with_store retention_of
set_history none app = app
set_history (some v) app =
    record (with_settings app (record (app.store.settings) { history_days = v })) {
      retention_secs = retention_of v;
    }

unfoldable pub is_rule : (Text → Option IpAddr) → Text → Bool
is_rule parse_addr r = is_some_and (parse_rule parse_addr r) (λ _. true)

unfoldable pub set_allow_from :
    (Text → Option IpAddr) → Bool → Option (List Text) → App → App × Answer
unfolding with_store saved is_rule
set_allow_from parse_addr saves none app = saved saves app
set_allow_from parse_addr saves (some list) app =
    elim (find (λ r. not (is_rule parse_addr r)) list) [
      | some r ↦ (app, refused (codes "'" ++ r ++ codes "' is not an address or CIDR block"))
      | none ↦ saved saves (with_settings app (record (app.store.settings) { allow_from = list }))
    ]

unfoldable pub limits : (Text → Option IpAddr) → Bool → LimitsReq → App → App × Answer
unfolding set_max_inflight set_models_ttl set_history set_allow_from
limits parse_addr saves req app =
    if is_some_and req.max_inflight (λ v. v == 0)
    then (app, refused (codes "max_inflight must be at least 1"))
    else set_allow_from parse_addr saves req.allow_from (
        set_history req.history_days
          (set_models_ttl req.models_ttl_secs (set_max_inflight req.max_inflight app)))
