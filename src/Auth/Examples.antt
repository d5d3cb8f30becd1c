-- ===== src/Auth/Examples.antt =====
-- The theorems on src/auth.rs at concrete primitives: bytes in unary for base64, and constant digests.
use llm_rate_limit_proxy.Base.{
  ℕ, zero, suc, ◌+◌, ◌≡◌, refl, ap, ◌∙◌, arith, true, false, not, [], ◌∷◌, ◌++◌, Option, none, some,
  Text, codes, leb, ◌==◌, if◌then◌else◌, ◌&&◌, length, map_or, is_some_and, find, same, All,
  replicate,
}
use llm_rate_limit_proxy.Config
use llm_rate_limit_proxy.Config.{User}
use llm_rate_limit_proxy.Auth.{LoginThrottle, is_throttled}
use llm_rate_limit_proxy.Auth.Crypto.{Crypto, IsCrypto, is_url_safe}
use llm_rate_limit_proxy.Auth.Passwords.{
  hash_password, verify_password, verify_password-hash_password,
}
use llm_rate_limit_proxy.Auth.Tokens.{mint, verify, pw_witness, verify-mint}
use llm_rate_limit_proxy.Auth.Cookies.{session_cookie, session_prefix}
use llm_rate_limit_proxy.Auth.Guards.{
  passes, to_login, logged_in, called, session_ttl, require_session, login_submit,
}
use llm_rate_limit_proxy.Auth.Sessions.{login-session}

unary : ℕ → Text → Text
unary zero s = 98 ∷ s
unary (suc n) s = 97 ∷ unary n s

encode : Text → Text
encode [] = []
encode (c ∷ s) = unary c (encode s)

decode_from : ℕ → Text → Option Text
decode_from n [] = if n == 0 then some [] else none
decode_from n (c ∷ s) =
    let more = decode_from (suc n) s in
    let next = decode_from 0 s in
    if c == 97 then more else map_or next none (λ rest. some (n ∷ rest))

decode-unary :
    (m n : ℕ) (s : Text)
    → decode_from m (unary n s) ≡ map_or (decode_from 0 s) none (λ rest. some ((m + n) ∷ rest))
unfolding decode_from unary
decode-unary m zero s =
    ap (λ x. map_or (decode_from 0 s) none (λ rest. some (x ∷ rest))) {x = m} {y = m + 0}
      (omega arith)
decode-unary m (suc n) s =
    decode-unary (suc m) n s
    ∙ ap (λ x. map_or (decode_from 0 s) none (λ rest. some (x ∷ rest))) {x = suc m + n}
        {y = m + suc n} (omega arith)

decode-encode : (s : Text) → decode_from 0 (encode s) ≡ some s
unfolding decode_from encode
decode-encode [] = refl
decode-encode (c ∷ s) =
    decode-unary 0 c (encode s)
    ∙ ap (λ (o : Option Text). map_or o none (λ rest. some ((0 + c) ∷ rest))) (decode-encode s)
    ∙ ap (λ n. some (n ∷ s)) {x = 0 + c} {y = c} (omega arith)

unary-safe :
    (n : ℕ) (s : Text)
    → All (λ c. is_url_safe c ≡ true) s
    → All (λ c. is_url_safe c ≡ true) (unary n s)
unfolding unary
unary-safe zero s h = (refl, h)
unary-safe (suc n) s h = (refl, unary-safe n s h)

encode-safe : (s : Text) → All (λ c. is_url_safe c ≡ true) (encode s)
unfolding encode unary
encode-safe [] = tt
encode-safe (c ∷ s) = unary-safe c (encode s) (encode-safe s)

length-replicate {ℓ} : {A : Type ℓ} (n : ℕ) (a : A) → length (replicate n a) ≡ n
length-replicate zero a = refl
length-replicate (suc n) a = ap suc (length-replicate n a)

abbrev crypto : Crypto
crypto = record {
  hmac_sha256 = λ key text. key;
  sha256_hex = λ text. [];
  pbkdf2 = λ pw salt rounds n. replicate n 0;
  b64 = encode;
  b64d = decode_from 0;
  as_bytes = λ s. s;
  from_utf8 = λ s. some s;
}

crypto-IsCrypto : IsCrypto crypto
crypto-IsCrypto = record {
  b64d-b64 = decode-encode;
  b64-safe = encode-safe;
  from_utf8-as_bytes = λ s. refl;
  sha256_hex-safe = λ s. tt;
  pbkdf2-length = λ pw salt rounds n. length-replicate n 0;
}

abbrev root_hash : Text
root_hash = hash_password crypto [] (codes "pw")

abbrev root : User
root = record { username = codes "r"; pw_hash = root_hash; role = Config.superuser }

abbrev quiet : LoginThrottle
quiet = record { fails = 0; window_start = 0 }

verify_password-hash_password_example :
    (verify_password crypto (codes "x") root_hash ≡ same (replicate 32 0) (replicate 32 0))
    × (verify_password crypto (codes "pw") root_hash ≡ true)
verify_password-hash_password_example =
    verify_password-hash_password crypto crypto-IsCrypto (codes "pw") (codes "x") []

verify-mint_example :
    verify crypto [] 5 (mint crypto [] 4 (codes "a|b") (codes "w") 3)
    ≡ (if leb 7 5 then none else some (codes "a|b", codes "w"))
verify-mint_example =
    verify-mint crypto [] 4 5 3 (codes "a|b") (codes "w") crypto-IsCrypto (refl, tt) (omega arith)

abbrev cookie : Text
cookie =
    session_cookie (mint crypto [] 4 (codes "r") (pw_witness crypto root_hash) session_ttl) false

root_login :
    (login_submit crypto [] false 0 4 (root ∷ []) (codes "r") (codes "pw") quiet).1
    ≡ logged_in cookie
unfolding login_submit find same is_throttled
root_login = rw (verify_password-hash_password_example.1) refl

login-session_example :
    (u : User) × (token : Text) × (find (called (codes "r")) (root ∷ []) ≡ some u)
    × (verify_password crypto (codes "pw") u.pw_hash ≡ true)
    × (is_throttled 0 quiet ≡ false)
    × (cookie ≡ session_cookie token false)
    × (require_session crypto false [] 5 [] (some (session_prefix ++ token)) ≡ (
        if not (leb (4 + session_ttl) 5)
          && is_some_and
              (find (called (codes "r")) [])
              (λ (v : User). same (pw_witness crypto v.pw_hash) (pw_witness crypto u.pw_hash))
        then passes (codes "r")
        else to_login))
login-session_example =
    login-session crypto crypto-IsCrypto [] false 0 4 5 (root ∷ []) [] (codes "r") (codes "pw")
      quiet cookie (omega arith) root_login
