-- ===== src/Auth.antt =====
-- src/auth.rs: the throttle of failed logins and the lookup of a client key. The digest of a secret is a
-- parameter. Times are milliseconds.
pub mod Decimal
pub mod Crypto
pub mod Passwords
pub mod Tokens
pub mod Cookies
pub mod Guards
pub mod Sessions
mod Examples
use llm_rate_limit_proxy.Base.{
  ℕ, ◌+◌, ◌-◌, Bool, List, Option, none, some, Text, ltb, leb, ◌&&◌, if◌then◌else◌, same, find,
}
use llm_rate_limit_proxy.Config.{ClientKey}

abbrev pub max_login_fails : ℕ
max_login_fails = 5

abbrev pub login_window : ℕ
login_window = 60000

pub record LoginThrottle : Type 0 where
  pub fails : ℕ
  pub window_start : ℕ

unfoldable pub is_throttled : ℕ → LoginThrottle → Bool
is_throttled now t = leb max_login_fails t.fails && ltb (now - t.window_start) login_window

unfoldable pub record_login_failure : ℕ → LoginThrottle → LoginThrottle
record_login_failure now t =
    let t' =
      if leb login_window (now - t.window_start)
      then record t { fails = 0; window_start = now }
      else t in
    record t' { fails = t'.fails + 1 }

unfoldable pub reset_login_failures : LoginThrottle → LoginThrottle
reset_login_failures t = record t { fails = 0 }

-- The label of the key whose digest the secret has. `ct_eq` is equality.
unfoldable pub verify_client_key : (Text → Text) → Text → List ClientKey → Option Text
verify_client_key sha256_hex secret keys =
    elim (find (λ k. same (sha256_hex secret) k.digest) keys) [
      | none ↦ none
      | some k ↦ some k.label
    ]
