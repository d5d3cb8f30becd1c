-- ===== src/Pool/Lanes.antt =====
-- `lane_specs` and `Pool` of src/pool.rs. Times count milliseconds.
pub mod Carry
use llm_rate_limit_proxy.Base.{
  ℕ, ◌+◌, Bool, true, false, List, [], ◌∷◌, ◌++◌, map, Option, none, some, Text, same, ltb,
  if◌then◌else◌, ◌&&◌, find, length, is_empty, get_elem?,
}
use llm_rate_limit_proxy.Config.{Provider, ProviderKey, StoredConfig}
use llm_rate_limit_proxy.Pool.Lane
use llm_rate_limit_proxy.Pool.Lane.{Lane, LaneSpec}

-- `PROVIDER_WINDOW` and `JITTER_MARGIN`.
abbrev pub default_provider_window : ℕ
default_provider_window = 60000

abbrev pub jitter_margin : ℕ
jitter_margin = 1000

unfoldable pub spec_of : Provider → ProviderKey → LaneSpec
spec_of p k = record {
  provider = p.name;
  base_url = p.base_url;
  key = k.key;
  rpm = k.rpm;
  protocol = p.protocol;
}

-- The test of the inner loop: a key that can serve.
unfoldable pub usable : ProviderKey → Bool
usable k = k.enabled && ltb 0 k.rpm

unfoldable pub key_specs : Provider → List ProviderKey → List LaneSpec
unfolding usable spec_of
key_specs p [] = []
key_specs p (k ∷ ks) = if usable k then spec_of p k ∷ key_specs p ks else key_specs p ks

unfoldable pub provider_specs : List Provider → List LaneSpec
provider_specs [] = []
provider_specs (p ∷ ps) = key_specs p p.keys ++ provider_specs ps

unfoldable pub lane_specs : StoredConfig → List LaneSpec
lane_specs sc = provider_specs sc.providers

pub record Pool : Type 0 where
  pub lanes : List Lane
  pub window : ℕ

unfoldable pub with_window : List LaneSpec → ℕ → Pool
with_window specs window = record { lanes = map (λ s. Lane.new s window) specs; window = window }

unfoldable pub for_provider_window : List LaneSpec → ℕ → Pool
for_provider_window specs provider_window = with_window specs (provider_window + jitter_margin)

unfoldable pub new : List LaneSpec → Pool
new specs = for_provider_window specs default_provider_window

-- A key is matched by its provider and its secret.
unfoldable pub same_key : LaneSpec → Lane → Bool
same_key spec l = same l.provider spec.provider && same l.key spec.key

unfoldable pub rebuilt_lane : Pool → LaneSpec → Lane
unfolding same_key
rebuilt_lane p spec = elim (find (same_key spec) p.lanes) [
  | none ↦ Lane.new spec p.window
  | some old ↦ Lane.carry_from (Lane.new spec p.window) old
]

unfoldable pub rebuild : Pool → List LaneSpec → Pool
unfolding rebuilt_lane
rebuild p specs = record { lanes = map (rebuilt_lane p) specs; window = p.window }

unfoldable pub len : Pool → ℕ
len p = length p.lanes

unfoldable pub is_empty_pool : Pool → Bool
is_empty_pool p = is_empty p.lanes

unfoldable pub rpms : Pool → List ℕ
rpms p = map (λ l. l.rpm) p.lanes

unfoldable pub sum : List ℕ → ℕ
sum [] = 0
sum (n ∷ ns) = n + sum ns

-- The sum over the lanes of what each key may serve in a minute.
unfoldable pub capacity_rpm : Pool → ℕ
unfolding rpms sum
capacity_rpm p = sum (rpms p)
