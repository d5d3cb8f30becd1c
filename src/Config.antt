-- ===== src/Config.antt =====
-- The stored configuration of src/config.rs: its records and their defaults.
pub mod Urls
pub mod Files
use llm_rate_limit_proxy.Base.{
  ℕ, Bool, true, false, List, [], ◌∷◌, Option, none, some, Text, codes, same, find, strip_prefix,
  if◌then◌else◌,
}

pub data Protocol : Type 0 where
  open_ai anthropic : Protocol

pub data Role : Type 0 where
  superuser admin user : Role

unfoldable pub is_admin : Role → Bool
is_admin superuser = true
is_admin admin = true
is_admin user = false

pub record User : Type 0 where
  pub username : Text
  pub pw_hash : Text
  pub role : Role

pub record ProviderKey : Type 0 where
  pub key : Text
  pub enabled : Bool
  pub rpm : ℕ
  pub owner : Text

pub record Provider : Type 0 where
  pub name : Text
  pub base_url : Text
  pub keys : List ProviderKey
  pub protocol : Protocol

pub record ClientKey : Type 0 where
  pub label : Text
  pub digest : Text
  pub last4 : Text
  pub owner : Text

pub record AliasTarget : Type 0 where
  pub provider : Text
  pub model : Text

pub record Alias : Type 0 where
  pub name : Text
  pub targets : List AliasTarget

-- Hundredths of a dollar for a million tokens: the program holds a float here.
pub record Rate : Type 0 where
  pub input_per_mtok : ℕ
  pub output_per_mtok : ℕ

pub record Settings : Type 0 where
  pub history_days : ℕ
  pub max_inflight : ℕ
  pub models_ttl_secs : ℕ
  pub allow_from : List Text
  pub model_rates : List (Text × Rate)

pub record StoredConfig : Type 0 where
  pub version : ℕ
  pub users : List User
  pub providers : List Provider
  pub clients : List ClientKey
  pub aliases : List Alias
  pub settings : Settings

abbrev pub default_rpm : ℕ
default_rpm = 40

abbrev pub store_version : ℕ
store_version = 1

abbrev pub default_model_rates : List (Text × Rate)
default_model_rates =
    (codes "z-ai/glm-5.2", record { input_per_mtok = 60; output_per_mtok = 200 })
    ∷ (codes "deepseek-ai/deepseek-v4-pro", record { input_per_mtok = 28; output_per_mtok = 110 })
    ∷ (codes "deepseek-ai/deepseek-v4-flash", record { input_per_mtok = 7; output_per_mtok = 30 })
    ∷ []

abbrev pub default_settings : Settings
default_settings = record {
  history_days = 30;
  max_inflight = 512;
  models_ttl_secs = 600;
  allow_from = [];
  model_rates = default_model_rates;
}

-- `StoredConfig::default()`, which derives `Default` and so leaves the version at 0.
abbrev pub default_config : StoredConfig
default_config = record {
  version = 0;
  users = [];
  providers = [];
  clients = [];
  aliases = [];
  settings = default_settings;
}

unfoldable pub is_superuser : Role → Bool
is_superuser superuser = true
is_superuser admin = false
is_superuser user = false

unfoldable pub superuser_of : StoredConfig → Option User
superuser_of sc = find (λ u. is_superuser u.role) sc.users

unfoldable pub same_protocol : Protocol → Protocol → Bool
same_protocol open_ai open_ai = true
same_protocol anthropic anthropic = true
same_protocol _ _ = false

-- `Protocol::of_route`.
unfoldable pub of_route : Text → Protocol
of_route route =
    if same route (codes "/v1/messages")
    then anthropic
    else elim (strip_prefix (codes "/v1/messages/") route) [ none ↦ open_ai | some _ ↦ anthropic ]
