-- ===== src/Settings/Store.antt =====
-- What the handlers of src/settings.rs share: the state that they edit, their answers, and `apply`. Whether
-- a save to the disk succeeds is a parameter; a save that fails leaves the file as it was.
use llm_rate_limit_proxy.Base.{
  ℕ, ◌-◌, Bool, Option, none, some, Text, codes, ltb, ◌==◌, if◌then◌else◌, is_empty, length, drop,
}
use llm_rate_limit_proxy.Config.{StoredConfig}
use llm_rate_limit_proxy.Pool.Lanes.{Pool, lane_specs, rebuild}

-- The parts of `AppState` that settings reach; `disk` is the configuration last saved.
pub record App : Type 0 where
  pub store : StoredConfig
  pub disk : Option StoredConfig
  pub pool : Pool
  pub ttl_secs : ℕ
  pub retention_secs : ℕ

pub data Answer : Type 0 where
  accepted save_failed : Answer
  refused forbidden : Text → Answer

unfoldable pub finish : Bool → App → App × Answer
finish saves app =
    if saves
    then (
      record app { disk = some app.store; pool = rebuild app.pool (lane_specs app.store) },
      accepted,
    )
    else (app, save_failed)

-- `saved(config::save(...))`, which leaves the pool alone.
unfoldable pub saved : Bool → App → App × Answer
saved saves app =
    if saves then (record app { disk = some app.store }, accepted) else (app, save_failed)

unfoldable pub with_store : App → StoredConfig → App
with_store app store = record app { store = store }

-- The refusal that ends `provider_keys` and `providers`. The edited store is already in place.
unfoldable pub finish_serving : Bool → App → App × Answer
unfolding finish
finish_serving saves app =
    if is_empty (lane_specs app.store)
    then (app, refused (codes "that would leave no enabled keys and stop the proxy serving"))
    else finish saves app

-- The error of an rpm, if it has one.
unfoldable pub check_rpm : ℕ → Option Text
check_rpm rpm =
    if rpm == 0
    then some (codes "rpm must be at least 1; disable the key instead")
    else (if ltb 10000 rpm
        then some (codes "rpm above 10000 is not a real provider limit")
        else none)

-- The last four characters, or all where there are fewer.
unfoldable pub last4 : Text → Text
last4 secret = drop (length secret - 4) secret
