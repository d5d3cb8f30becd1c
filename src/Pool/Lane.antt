-- ===== src/Pool/Lane.antt =====
-- `LaneSpec` and `Lane` of src/pool.rs: one API key of one provider, with its limiter. The two
-- mutexes of a lane leave no trace: each method holds one for its whole body.
use llm_rate_limit_proxy.Base.{
  ℕ, Bool, Option, none, some, Text, ltb, if◌then◌else◌, max, Result, is_some_and, map_or, ◌≡◌,
  ◌||◌, arith,
}
use llm_rate_limit_proxy.Config.{Protocol}
use llm_rate_limit_proxy.Pool.Window
use llm_rate_limit_proxy.Pool.Window.{SlidingWindow}

pub record LaneSpec : Type 0 where
  pub provider : Text
  pub base_url : Text
  pub key : Text
  pub rpm : ℕ
  pub protocol : Protocol

pub record Lane : Type 0 where
  pub provider : Text
  pub base_url : Text
  pub key : Text
  pub rpm : ℕ
  pub protocol : Protocol
  pub limiter : SlidingWindow
  pub cooldown_until : Option ℕ

unfoldable pub new : LaneSpec → ℕ → Lane
new spec window = record {
  provider = spec.provider;
  base_url = spec.base_url;
  key = spec.key;
  rpm = spec.rpm;
  protocol = spec.protocol;
  limiter = Window.new spec.rpm window;
  cooldown_until = none;
}

unfoldable pub bench : Lane → ℕ → Lane
bench l until = record l {
  cooldown_until = some (map_or l.cooldown_until until (λ current. max current until));
}

unfoldable pub benched : Lane → ℕ → Bool
benched l now = is_some_and l.cooldown_until (λ until. ltb now until)

unfoldable pub cooldown_ends : Lane → ℕ → Option ℕ
cooldown_ends l now = elim l.cooldown_until [
  | none ↦ none
  | some until ↦ if ltb now until then some until else none
]

unfoldable pub try_acquire : Lane → ℕ → Lane × Result (Unit {0}) ℕ
try_acquire l now =
    let (w, answer) = Window.try_acquire l.limiter now in (record l { limiter = w }, answer)

unfoldable pub load : Lane → ℕ → Lane × ℕ
load l now = let (w, spent) = Window.load l.limiter now in (record l { limiter = w }, spent)

unfoldable pub carry_from : Lane → Lane → Lane
carry_from l old = record l {
  limiter = record (l.limiter) { hits = old.limiter.hits };
  cooldown_until = old.cooldown_until;
}

-- Benching a lane takes it out of rotation exactly until the later of the end that was already in
-- force and the new one: a shorter bench never cancels a longer one.
pub benched-bench :
    (l : Lane) (until now : ℕ) → benched (bench l until) now ≡ (benched l now || ltb now until)
unfolding benched bench
benched-bench l until now = ground arith
