-- ===== src/Setup/Examples.antt =====
-- The theorems on src/setup.rs at concrete claims.
use llm_rate_limit_proxy.Base.{
  ◌≤◌, ◌≡◌, refl, Bool, true, false, List, [], ◌∷◌, none, Text, codes, count_if, find,
}
use llm_rate_limit_proxy.Config.{ClientKey, default_config, superuser_of}
use llm_rate_limit_proxy.Config.Urls.{trim, trim_start_matches, trim_end_matches, is_whitespace}
use llm_rate_limit_proxy.Pool.Lanes.{with_window}
use llm_rate_limit_proxy.Setup.{
  SetupForm, Site, setup_submit, submit_all, claim, screen, completed, Move, arrive, enter, finish,
  Race, race,
}
use llm_rate_limit_proxy.Setup.Claims.{is_ready, race-once, submit_all-locked}

abbrev form : SetupForm
form = record {
  username = codes "root";
  password = codes "secret";
  provider_name = codes "nim";
  base_url = codes "https://a";
  api_key = codes "k";
  protocol = none;
}

abbrev site : Site
site = record {
  setup_required = true;
  store = default_config;
  disk = none;
  pool = with_window [] 61000;
}

abbrev record_of : Text → Text → ClientKey
record_of label owner = record { label = label; digest = []; last4 = []; owner = owner }

abbrev both : List (Bool × SetupForm)
both = (true, form) ∷ (true, form) ∷ []

-- Two claims that both get past the test of `setup_required`.
abbrev moves : List Move
moves = arrive form ∷ arrive form ∷ enter 1 true ∷ enter 0 true ∷ finish ∷ finish ∷ []

abbrev start : Race
start = record { site = site; waiting = []; saved = 0; replies = [] }

race-once_example : count_if is_ready (race (λ p. p) record_of 60000 moves start).replies ≤ 1
race-once_example = race-once (λ p. p) record_of 60000 moves site []

abbrev after : Site
after = (setup_submit (λ p. p) record_of 60000 false form site).0

submit_all-locked_example :
    (after.setup_required ≡ true)
    × (count_if is_ready (submit_all (λ p. p) record_of 60000 both after).1 ≡ 0)
unfolding setup_submit claim screen completed superuser_of find trim trim_start_matches
    trim_end_matches is_whitespace
submit_all-locked_example =
    submit_all-locked (λ p. p) record_of 60000 false form site after both refl
