-- ===== src/Auth/Crypto.antt =====
-- What src/auth.rs takes from the libraries: digests, base64 and UTF-8. A string is its characters, bytes are
-- their values.
use llm_rate_limit_proxy.Base.{
  ℕ, zero, suc, ◌≡◌, arith, Bool, true, false, [], ◌∷◌, Option, some, Text, leb, ◌==◌, ◌&&◌, ◌||◌,
  length, take, All,
}
use llm_rate_limit_proxy.Base.{Lacks}

pub record Crypto : Type 0 where
  pub hmac_sha256 : Text → Text → Text
  pub sha256_hex : Text → Text
  -- A password, a salt, the rounds and the length of the output.
  pub pbkdf2 : Text → Text → ℕ → ℕ → Text
  pub b64 : Text → Text
  pub b64d : Text → Option Text
  pub as_bytes : Text → Text
  pub from_utf8 : Text → Option Text

-- The alphabet of `URL_SAFE_NO_PAD`.
abbrev pub is_url_safe : ℕ → Bool
is_url_safe c =
    (leb 97 c && leb c 122)
    || ((leb 65 c && leb c 90) || ((leb 48 c && leb c 57) || ((c == 45) || (c == 95))))

-- What the code relies on.
pub record IsCrypto (k : Crypto) : Type 0 where
  pub b64d-b64 : (bytes : Text) → k.b64d (k.b64 bytes) ≡ some bytes
  pub b64-safe : (bytes : Text) → All (λ c. is_url_safe c ≡ true) (k.b64 bytes)
  pub from_utf8-as_bytes : (s : Text) → k.from_utf8 (k.as_bytes s) ≡ some s
  pub sha256_hex-safe : (s : Text) → All (λ c. is_url_safe c ≡ true) (k.sha256_hex s)
  pub pbkdf2-length : (pw salt : Text) (rounds n : ℕ) → length (k.pbkdf2 pw salt rounds n) ≡ n

pub safe-Lacks :
    (sep : ℕ) (s : Text) → is_url_safe sep ≡ false → All (λ c. is_url_safe c ≡ true) s → Lacks sep s
safe-Lacks sep [] h a = tt
safe-Lacks sep (c ∷ s) h a = (ground (arith, a.0), safe-Lacks sep s h a.1)

pub take-safe :
    (n : ℕ) (s : Text)
    → All (λ c. is_url_safe c ≡ true) s
    → All (λ c. is_url_safe c ≡ true) (take n s)
take-safe zero s a = tt
take-safe (suc n) [] a = tt
take-safe (suc n) (c ∷ s) a = (a.0, take-safe n s a.1)
