-- ===== src/Auth/Guards.antt =====
-- The guards and the login of src/auth.rs. What a guard lets through is run by the caller.
use llm_rate_limit_proxy.Base.{
  ℕ, ◌-◌, Bool, true, List, ◌++◌, Option, none, some, Text, codes, if◌then◌else◌, ◌||◌, length,
  and_then, map_or, is_some_and, find, same, strip_prefix, drop,
}
use llm_rate_limit_proxy.Base.{drop, length}
use llm_rate_limit_proxy.Config.{User, ClientKey, is_admin}
use llm_rate_limit_proxy.Net.{split_once}
use llm_rate_limit_proxy.Auth.{
  LoginThrottle, is_throttled, record_login_failure, reset_login_failures,
}
use llm_rate_limit_proxy.Auth.Crypto.{Crypto}
use llm_rate_limit_proxy.Auth.Passwords.{verify_password}
use llm_rate_limit_proxy.Auth.Tokens.{mint, verify, pw_witness}
use llm_rate_limit_proxy.Auth.Cookies.{session_cookie, clear_cookie, session_from_cookies}

-- In seconds.
abbrev pub session_ttl : ℕ
session_ttl = 43200

abbrev pub called : Text → User → Bool
called username u = same u.username username

-- The guards' answers, which let a request through, as the user of a session or as it is, or turn it away.
pub data Guarded : Type 0 where
  passes : Text → Guarded
  runs to_setup to_login : Guarded
  turned_away : ℕ → Guarded

pub data LoginAnswer : Type 0 where
  too_many invalid : LoginAnswer
  logged_in : Text → LoginAnswer

module _ (k : Crypto) where
  -- The account that a session names is there, with the password that the session began with.
  unfoldable pub is_current : List User → Text × Text → Bool
  is_current users who =
      is_some_and (find (called who.0) users) (λ (u : User). same (pw_witness k u.pw_hash) who.1)

  unfoldable pub current_session : Text → ℕ → List User → Option Text → Option (Text × Text)
  unfolding is_current
  current_session key now users cookie =
      and_then (and_then (session_from_cookies cookie) (verify k key now))
        (λ (who : Text × Text). if is_current users who then some who else none)

  unfoldable pub require_session : Bool → Text → ℕ → List User → Option Text → Guarded
  unfolding current_session
  require_session setup_required key now users cookie =
      if setup_required
      then to_setup
      else map_or (current_session key now users cookie) to_login (λ who. passes who.0)

  -- `authorization` is the header; `basic` decodes its base64, in either alphabet.
  unfoldable pub by_basic : (basic : Text → Option Text) → List User → Option Text → Bool
  by_basic basic users authorization =
      is_some_and
        (and_then
          (and_then (and_then (and_then authorization (strip_prefix (codes "Basic "))) basic)
            k.from_utf8)
          (split_once 58))
        (λ (parts : Text × Text).
          is_some_and (find (called parts.0) users)
            (λ (u : User). verify_password k parts.1 u.pw_hash))

  unfoldable pub require_session_or_basic :
      (basic : Text → Option Text)
      → Bool
      → Text
      → ℕ
      → List User
      → Option Text
      → Option Text
      → Guarded
  unfolding current_session by_basic
  require_session_or_basic basic setup_required key now users cookie authorization =
      if setup_required
      then turned_away 503
      else (if is_some_and (current_session key now users cookie) (λ who. true)
            || by_basic basic users authorization
          then runs
          else turned_away 401)

  unfoldable pub require_admin : List User → Option Text → Guarded
  require_admin users session_user =
      if is_some_and (and_then session_user (λ name. find (called name) users))
        (λ (u : User). is_admin u.role)
      then runs
      else turned_away 403

  -- The clock is read in milliseconds for the throttle, and in seconds for the token.
  unfoldable pub login_submit :
      Text → Bool → ℕ → ℕ → List User → Text → Text → LoginThrottle → LoginThrottle × LoginAnswer
  login_submit key secure at now users username password t =
      if is_throttled at t then (t, too_many) else elim (find (called username) users) [
        | none ↦ (record_login_failure at t, invalid)
        | some u ↦
            if verify_password k password u.pw_hash
            then (
              reset_login_failures t,
              logged_in (
                  session_cookie (mint k key now username (pw_witness k u.pw_hash) session_ttl)
                    secure),
            )
            else (record_login_failure at t, invalid)
      ]

  -- `bytes` are random. The secret is base64, whose characters are bytes.
  unfoldable pub new_client_key : Text → Text → Text → Text × ClientKey
  new_client_key bytes label owner =
      let secret = codes "lrlp_" ++ k.b64 bytes in
      (
        secret,
        record {
          label = label;
          digest = k.sha256_hex secret;
          last4 = drop (length secret - 4) secret;
          owner = owner;
        },
      )

unfoldable pub logout : Bool → Text
logout secure = clear_cookie secure
