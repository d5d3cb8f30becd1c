-- ===== src/Auth/Sessions.antt =====
-- What a session of src/auth.rs is good for, from the login to the guard.
use llm_rate_limit_proxy.Base.{
  ℕ, ◌+◌, ◌^◌, ◌<◌, ◌≡◌, refl, ap, ◌∙◌, arith, Bool, true, false, not, List, [], ◌∷◌, ◌++◌, Option,
  none, some, Text, leb, ◌==◌, if◌then◌else◌, ◌&&◌, and_then, map_or, is_some_and, find, same, All,
}
use llm_rate_limit_proxy.Base.{Lacks, All-append}
use llm_rate_limit_proxy.Config.{User}
use llm_rate_limit_proxy.Config.Urls.{is_whitespace}
use llm_rate_limit_proxy.Auth.{
  LoginThrottle, is_throttled, record_login_failure, reset_login_failures,
}
use llm_rate_limit_proxy.Auth.Crypto.{Crypto, IsCrypto, is_url_safe, safe-Lacks}
use llm_rate_limit_proxy.Auth.Passwords.{verify_password}
use llm_rate_limit_proxy.Auth.Tokens.{
  sign_token, payload_of, mint, verify, pw_witness, verify-mint, pw_witness-Lacks,
}
use llm_rate_limit_proxy.Auth.Cookies.{
  session_cookie, session_prefix, session_from_cookies-prefix, IsSolid,
}
use llm_rate_limit_proxy.Auth.Guards.{
  Guarded, passes, to_login, LoginAnswer, logged_in, too_many, invalid, called, session_ttl,
  is_current, current_session, require_session, login_submit,
}

safe-IsSolid : (s : Text) → All (λ c. is_url_safe c ≡ true) s → IsSolid s
unfolding is_whitespace
safe-IsSolid [] h = tt
safe-IsSolid (c ∷ s) h = (ground (arith, h.0), safe-IsSolid s h.1)

module _ (k : Crypto) (law : IsCrypto k) where
  -- A token is base64 on both sides of its dot.
  mint-clean :
      (key : Text) (minted : ℕ) (username witness : Text) (ttl : ℕ)
      → IsSolid (mint k key minted username witness ttl)
        × Lacks 59 (mint k key minted username witness ttl)
  unfolding mint sign_token
  mint-clean key minted username witness ttl =
      let payload = k.as_bytes (payload_of username witness (minted + ttl)) in
      let sig = k.hmac_sha256 key payload in
      (
        All-append (λ c. is_whitespace c ≡ false) (k.b64 payload) (46 ∷ k.b64 sig)
            (safe-IsSolid (k.b64 payload) (law.b64-safe payload))
            (unfold is_whitespace in refl, safe-IsSolid (k.b64 sig) (law.b64-safe sig)),
        All-append (λ c. (c == 59) ≡ false) (k.b64 payload) (46 ∷ k.b64 sig)
            (safe-Lacks 59 (k.b64 payload) refl (law.b64-safe payload))
            (refl, safe-Lacks 59 (k.b64 sig) refl (law.b64-safe sig)),
      )

  -- What the guard makes of the token of a session that began at `minted`.
  require_session-mint :
      (key : Text) (minted now : ℕ) (username pw_hash : Text) (users : List User)
      → minted + session_ttl < 2 ^ 64
      → require_session k false key now users
          (some (session_prefix ++ mint k key minted username (pw_witness k pw_hash) session_ttl))
        ≡ (if not (leb (minted + session_ttl) now)
              && is_some_and
                  (find (called username) users)
                  (λ (u : User). same (pw_witness k u.pw_hash) (pw_witness k pw_hash))
            then passes username
            else to_login)
  unfolding require_session current_session
  require_session-mint key minted now username pw_hash users lt =
      let witness = pw_witness k pw_hash in
      let token = mint k key minted username witness session_ttl in
      let (solid, lacks) = mint-clean key minted username witness session_ttl in
      let look : Option (Text × Text) → Guarded = λ o.
        map_or
          (and_then o (λ (who : Text × Text). if is_current k users who then some who else none))
          to_login (λ who. passes who.0) in
      ap (λ (o : Option Text). look (and_then o (verify k key now)))
        (session_from_cookies-prefix token solid lacks)
      ∙ ap look (
          verify-mint k key minted now session_ttl username witness law
            (pw_witness-Lacks k pw_hash law) lt)
      ∙ open_if (leb (minted + session_ttl) now) (is_current k users (username, witness)) refl
    where
      same_branch :
          (b : Bool)
          → map_or
              (if b then some (username, pw_witness k pw_hash) else none)
              to_login
              (λ (who : Text × Text). passes who.0)
            ≡ (if b then passes username else to_login)
      same_branch true = refl
      same_branch false = refl

      open_if :
          (expired current : Bool)
          → is_current k users (username, pw_witness k pw_hash) ≡ current
          → map_or
              (and_then
                (if expired then none else some (username, pw_witness k pw_hash))
                (λ (who : Text × Text). if is_current k users who then some who else none))
              to_login
              (λ who. passes who.0)
            ≡ (if not expired && current then passes username else to_login)
      open_if true current e = refl
      open_if false current e = rw (e) (same_branch current)

  login_submit-logged_in :
      (key : Text) (secure : Bool) (at now : ℕ) (users : List User) (username password : Text)
      (t : LoginThrottle) {cookie : Text}
      → (login_submit k key secure at now users username password t).1 ≡ logged_in cookie
      → (u : User) × (find (called username) users ≡ some u)
        × (verify_password k password u.pw_hash ≡ true)
        × (cookie
            ≡ session_cookie (mint k key now username (pw_witness k u.pw_hash) session_ttl) secure)
        × (is_throttled at t ≡ false)
  unfolding login_submit
  login_submit-logged_in key secure at now users username password t {cookie} h =
      go (is_throttled at t) refl (find (called username) users) refl h
    where
      go :
          (b : Bool)
          → is_throttled at t ≡ b
          → (o : Option User) → find (called username) users ≡ o
          → (if b then (t, too_many) else (elim o as (λ _. LoginThrottle × LoginAnswer) [
            | none ↦ (record_login_failure at t, invalid)
            | some u ↦
                if verify_password k password u.pw_hash
                then (
                  reset_login_failures t,
                  logged_in (
                      session_cookie
                        (mint k key now username (pw_witness k u.pw_hash) session_ttl)
                        secure),
                )
                else (record_login_failure at t, invalid)
          ])).1
            ≡ logged_in cookie
          → (u : User) × (find (called username) users ≡ some u)
            × (verify_password k password u.pw_hash ≡ true)
            × (cookie
                ≡ session_cookie
                    (mint k key now username (pw_witness k u.pw_hash) session_ttl)
                    secure)
            × (is_throttled at t ≡ false)
      go true e o f h' = absurd (ground arith)
      go false e none f h' = absurd (ground arith)
      go false e (some u) f h' = (u, f, ground arith, ground arith, e)

  -- A login that succeeds, at a time whose session ends below `2 ^ 64`, was not throttled and found an account with
  -- that name and that password. With the setup done, the token of its cookie then opens the dashboard to that user
  -- until it expires, and exactly as long as the account that is found under that name has a password hash with the
  -- same witness; without one, or with another witness, the token is sent to the login.
  pub login-session :
      (key : Text) (secure : Bool) (at now later : ℕ) (users users' : List User)
      (username password : Text) (t : LoginThrottle) (cookie : Text)
      → now + session_ttl < 2 ^ 64
      → (login_submit k key secure at now users username password t).1 ≡ logged_in cookie
      → (u : User) × (token : Text) × (find (called username) users ≡ some u)
        × (verify_password k password u.pw_hash ≡ true)
        × (is_throttled at t ≡ false)
        × (cookie ≡ session_cookie token secure)
        × (require_session k false key later users' (some (session_prefix ++ token)) ≡ (
            if not (leb (now + session_ttl) later)
              && is_some_and
                  (find (called username) users')
                  (λ (v : User). same (pw_witness k v.pw_hash) (pw_witness k u.pw_hash))
            then passes username
            else to_login))
  login-session key secure at now later users users' username password t cookie lt h =
      let (u, found, good, c, free) =
        login_submit-logged_in key secure at now users username password t h in
      (
        u,
        mint k key now username (pw_witness k u.pw_hash) session_ttl,
        found,
        good,
        free,
        c,
        require_session-mint key now later username u.pw_hash users' lt,
      )
