-- ===== src/Settings/Examples.antt =====
-- The theorems on src/settings.rs, src/net.rs and the URLs of src/config.rs at concrete configurations.
use llm_rate_limit_proxy.Base.{
  ◌≡◌, refl, arith, true, List, [], ◌∷◌, Option, none, some, Text, codes, In, here, there, same,
  find, retain, any, ◌≢◌,
}
use llm_rate_limit_proxy.Config.{
  StoredConfig, ProviderKey, User, ClientKey, open_ai, superuser, default_settings,
}
use llm_rate_limit_proxy.Net.{IpAddr, v4, Rule}
use llm_rate_limit_proxy.Pool.Lanes.{with_window, lane_specs, provider_specs, key_specs}
use llm_rate_limit_proxy.Settings.Store.{App, finish, with_store}
use llm_rate_limit_proxy.Settings.Providers.{
  add, remove_provider, remove_alias, aliases, known, named,
}
use llm_rate_limit_proxy.Settings.Accounts.{
  clients, revoke, called, is_admin, remove_user, set_password, limits, LimitsReq,
}
use llm_rate_limit_proxy.Settings.Outcome.{IsOutOfService, aliases-empties}
use llm_rate_limit_proxy.Settings.Routing.{
  IsRouted, of_keys, of_providers, of_aliases, edit_all, edit_all-IsRouted,
}
use llm_rate_limit_proxy.Settings.Ownership.{
  IsSuper, users_all, users_all-IsSuper, HasKey, clients-HasKey,
}
use llm_rate_limit_proxy.Settings.Sanity.{IsSane, limits-IsSane}

-- 192.168.1.0/24.
abbrev lan : List Rule
lan = record { addr = v4 3232235776; bits = 24 } ∷ []

abbrev nim : Text
nim = codes "nim"

abbrev root : User
root = record { username = codes "root"; pw_hash = []; role = superuser }

abbrev sample_key : ProviderKey
sample_key = record { key = codes "k1"; enabled = true; rpm = 40; owner = [] }

abbrev sample_client : ClientKey
sample_client = record {
  label = codes "ci";
  digest = [];
  last4 = codes "abcd";
  owner = codes "ann";
}

abbrev sample : StoredConfig
sample = record {
  version = 1;
  users = root ∷ [];
  providers = record { name = nim; base_url = []; keys = sample_key ∷ []; protocol = open_ai } ∷ [];
  clients = sample_client ∷ [];
  aliases =
      record { name = codes "fast"; targets = record { provider = nim; model = codes "m" } ∷ [] }
      ∷ [];
  settings = default_settings;
}

abbrev app : App
app = record {
  store = sample;
  disk = some sample;
  pool = with_window [] 61000;
  ttl_secs = 600;
  retention_secs = 0;
}

-- The last key is switched off, and the edit of an alias follows.
abbrev refused_app : App
refused_app = record app {
  store = record sample {
    providers = record { name = nim; base_url = []; keys = []; protocol = open_ai } ∷ [];
  };
}

aliases-empties_example : IsOutOfService (aliases true (remove_alias (codes "fast")) refused_app).0
unfolding lane_specs provider_specs key_specs aliases same finish with_store retain
aliases-empties_example = aliases-empties (remove_alias (codes "fast")) refused_app refl refl

edit_all-IsRouted_example :
    IsRouted
      (edit_all
        (of_keys true (add nim (codes "k2") none)
          ∷ of_providers true (remove_provider nim)
          ∷ of_aliases true (remove_alias (codes "fast"))
          ∷ [])
        app).store
unfolding IsRouted known named same any
edit_all-IsRouted_example =
    edit_all-IsRouted
      (of_keys true (add nim (codes "k2") none)
        ∷ of_providers true (remove_provider nim)
        ∷ of_aliases true (remove_alias (codes "fast"))
        ∷ [])
      app (record { some_target = refl; each = (refl, tt) }, tt)

users_all-IsSuper_example :
    IsSuper
      (codes "root")
      (users_all
        (λ p. p)
        ((true, remove_user (codes "root"))
          ∷ (true, set_password (codes "root") (codes "0123456789"))
          ∷ [])
        app).store.users
unfolding IsSuper called same find
users_all-IsSuper_example =
    users_all-IsSuper (λ p. p) (codes "root")
      ((true, remove_user (codes "root"))
        ∷ (true, set_password (codes "root") (codes "0123456789"))
        ∷ [])
      app (root, refl, refl)

abbrev record_of : Text → Text → ClientKey
record_of label owner = record { label = label; digest = []; last4 = []; owner = owner }

not_bob :
    (d : ClientKey)
    → In d (sample_client ∷ [])
    → d.last4 ≡ sample_client.last4
    → d.owner ≢ codes "bob"
not_bob _ here e h = absurd (ground arith)
not_bob d (there m) e h = elim m [ ]

abbrev no_addr : Text → Option IpAddr
no_addr s = none

abbrev bad_req : LimitsReq
bad_req = record {
  max_inflight = some 8;
  models_ttl_secs = none;
  history_days = some 0;
  allow_from = some (codes "nonsense" ∷ []);
}

limits-IsSane_example : IsSane no_addr (limits no_addr true bad_req app).0.store.settings
limits-IsSane_example =
    limits-IsSane no_addr true bad_req app (record { positive = omega arith; parsed = tt })

clients-HasKey_example :
    HasKey sample_client (clients record_of true (codes "bob") (revoke (codes "abcd")) app)
unfolding is_admin called same find
clients-HasKey_example =
    clients-HasKey record_of true (codes "bob") (revoke (codes "abcd")) app sample_client refl here
      not_bob
