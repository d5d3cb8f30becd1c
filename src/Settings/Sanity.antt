-- ===== src/Settings/Sanity.antt =====
-- What `limits` of src/settings.rs keeps of the settings.
use llm_rate_limit_proxy.Base.{
  ℕ, ◌≡◌, ◌<◌, arith, Bool, true, false, not, List, [], ◌∷◌, Option, none, some, Text, find, ◌==◌,
  codes, All, is_some_and, on_if, on_option,
}
use llm_rate_limit_proxy.Config.{Settings}
use llm_rate_limit_proxy.Net.{IpAddr}
use llm_rate_limit_proxy.Settings.Store.{App, Answer, refused, saved, with_store}
use llm_rate_limit_proxy.Settings.Accounts.{
  LimitsReq, limits, is_rule, set_allow_from, set_history, set_models_ttl, set_max_inflight,
}

-- The cap on requests in flight is positive, and every allow rule parses.
pub record IsSane (parse_addr : Text → Option IpAddr) (s : Settings) : Type 0 where
  pub positive : 0 < s.max_inflight
  pub parsed : All (λ r. is_rule parse_addr r ≡ true) s.allow_from

find-none :
    (p : Text → Bool) (rs : List Text) → find (λ r. not (p r)) rs ≡ none → All (λ r. p r ≡ true) rs
unfolding find
find-none p [] h = tt
find-none p (r ∷ rs) h = (ground arith, find-none p rs (ground arith))

unfoldable pub IsSaneIn : (Text → Option IpAddr) → App × Answer → Type 0
IsSaneIn parse_addr r = IsSane parse_addr r.0.store.settings

set_max_inflight-IsSane :
    (parse_addr : Text → Option IpAddr) (v : Option ℕ) (app : App)
    → is_some_and v (λ n. n == 0) ≡ false
    → IsSane parse_addr app.store.settings
    → IsSane parse_addr (set_max_inflight v app).store.settings
unfolding set_max_inflight with_store
set_max_inflight-IsSane parse_addr none app pos h = h
set_max_inflight-IsSane parse_addr (some v) app pos h = record {
  positive = ground arith;
  parsed = h.parsed;
}

set_models_ttl-IsSane :
    (parse_addr : Text → Option IpAddr) (v : Option ℕ) (app : App)
    → IsSane parse_addr app.store.settings
    → IsSane parse_addr (set_models_ttl v app).store.settings
unfolding set_models_ttl with_store
set_models_ttl-IsSane parse_addr none app h = h
set_models_ttl-IsSane parse_addr (some v) app h = record {
  positive = h.positive;
  parsed = h.parsed;
}

set_history-IsSane :
    (parse_addr : Text → Option IpAddr) (v : Option ℕ) (app : App)
    → IsSane parse_addr app.store.settings
    → IsSane parse_addr (set_history v app).store.settings
unfolding set_history with_store
set_history-IsSane parse_addr none app h = h
set_history-IsSane parse_addr (some v) app h = record { positive = h.positive; parsed = h.parsed }

saved-IsSane :
    (parse_addr : Text → Option IpAddr) (saves : Bool) (app : App)
    → IsSane parse_addr app.store.settings
    → IsSaneIn parse_addr (saved saves app)
unfolding IsSaneIn saved
saved-IsSane parse_addr true app h = h
saved-IsSane parse_addr false app h = h

refused-IsSane :
    (parse_addr : Text → Option IpAddr) (app : App) (e : Text)
    → IsSane parse_addr app.store.settings
    → IsSaneIn parse_addr (app, refused e)
unfolding IsSaneIn
refused-IsSane parse_addr app e h = h

set_allow_from-IsSane :
    (parse_addr : Text → Option IpAddr) (saves : Bool) (v : Option (List Text)) (app : App)
    → IsSane parse_addr app.store.settings
    → IsSaneIn parse_addr (set_allow_from parse_addr saves v app)
unfolding set_allow_from with_store
set_allow_from-IsSane parse_addr saves none app h = saved-IsSane parse_addr saves app h
set_allow_from-IsSane parse_addr saves (some rules) app h =
    on_option (IsSaneIn parse_addr) (find (λ r. not (is_rule parse_addr r)) rules) _ _
      (λ e.
        saved-IsSane parse_addr saves _
          (record { positive = h.positive; parsed = find-none (is_rule parse_addr) rules e }))
      (λ r _. refused-IsSane parse_addr app _ h)

-- Whatever is asked of `limits`, and also where it refuses a part of it, the settings keep a positive cap on
-- requests in flight and allow rules that parse.
pub limits-IsSane :
    (parse_addr : Text → Option IpAddr) (saves : Bool) (req : LimitsReq) (app : App)
    → IsSane parse_addr app.store.settings
    → IsSane parse_addr (limits parse_addr saves req app).0.store.settings
unfolding limits IsSaneIn
limits-IsSane parse_addr saves req app h =
    on_if (IsSaneIn parse_addr) (is_some_and req.max_inflight (λ v. v == 0)) _ _
      (λ _. refused-IsSane parse_addr app (codes "max_inflight must be at least 1") h)
      (λ pos. set_allow_from-IsSane parse_addr saves req.allow_from _ (
        set_history-IsSane parse_addr req.history_days _ (
          set_models_ttl-IsSane parse_addr req.models_ttl_secs _
            (set_max_inflight-IsSane parse_addr req.max_inflight app pos h))))
