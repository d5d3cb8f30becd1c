-- ===== src/Auth/Tokens.antt =====
-- The session tokens of src/auth.rs. `Admin`'s key is an argument, and so is the clock, in seconds.
use llm_rate_limit_proxy.Base.{
  ℕ, ◌+◌, ◌^◌, ◌<◌, ◌≡◌, refl, ap, ◌∙◌, arith, [], ◌∷◌, ◌++◌, Option, none, some, Text, leb,
  if◌then◌else◌, take, and_then, same, same_refl,
}
use llm_rate_limit_proxy.Base.{rsplit_once, rsplit_once-append, Lacks}
use llm_rate_limit_proxy.Net.{parse_below, split_once}
use llm_rate_limit_proxy.Auth.Crypto.{Crypto, IsCrypto, safe-Lacks, take-safe}
use llm_rate_limit_proxy.Auth.Decimal.{show_decimal, parse_below-show_decimal, show_decimal-Lacks}

-- What a token says.
abbrev pub payload_of : Text → Text → ℕ → Text
payload_of username witness expiry = (username ++ 124 ∷ witness) ++ 124 ∷ show_decimal expiry

module _ (k : Crypto) where
  unfoldable pub sign_token : Text → Text → Text → ℕ → Text
  sign_token key username witness expiry =
      let payload = k.as_bytes (payload_of username witness expiry) in
      k.b64 payload ++ 46 ∷ k.b64 (k.hmac_sha256 key payload)

  unfoldable pub mint : Text → ℕ → Text → Text → ℕ → Text
  unfolding sign_token
  mint key now username witness ttl_secs = sign_token key username witness (now + ttl_secs)

  unfoldable pub pw_witness : Text → Text
  pw_witness pw_hash = take 12 (k.sha256_hex (k.as_bytes pw_hash))

  -- The fields of a payload whose signature is good, from the right.
  unfoldable pub check_expiry : ℕ → Text → Text × Text → Option (Text × Text)
  check_expiry now expiry fields =
      and_then (parse_below (2 ^ 64) expiry) (λ n. if leb n now then none else some fields)

  unfoldable pub read_fields : ℕ → Text × Text → Option (Text × Text)
  unfolding check_expiry
  read_fields now (head, expiry) = and_then (rsplit_once 124 head) (check_expiry now expiry)

  unfoldable pub read_payload : ℕ → Text → Option (Text × Text)
  unfolding read_fields
  read_payload now payload = and_then (rsplit_once 124 payload) (read_fields now)

  unfoldable pub check_signature : Text → ℕ → Text → Text → Option (Text × Text)
  unfolding read_payload
  check_signature key now payload sig =
      if same sig (k.hmac_sha256 key payload)
      then and_then (k.from_utf8 payload) (read_payload now)
      else none

  unfoldable pub verify_parts : Text → ℕ → Text × Text → Option (Text × Text)
  unfolding check_signature
  verify_parts key now (payload_b64, sig_b64) =
      and_then (k.b64d payload_b64)
        (λ payload. and_then (k.b64d sig_b64) (check_signature key now payload))

  unfoldable pub verify : Text → ℕ → Text → Option (Text × Text)
  unfolding verify_parts
  verify key now token = and_then (split_once 46 token) (verify_parts key now)

  split_once-append :
      (sep : ℕ) (a b : Text) → Lacks sep a → split_once sep (a ++ sep ∷ b) ≡ some (a, b)
  unfolding split_once
  split_once-append sep [] b h = ground arith
  split_once-append sep (c ∷ a) b h = rw (h.0, split_once-append sep a b h.1) refl

  read_payload-payload_of :
      (now : ℕ) (username witness : Text) (expiry : ℕ)
      → Lacks 124 witness
      → expiry < 2 ^ 64
      → read_payload now (payload_of username witness expiry)
        ≡ (if leb expiry now then none else some (username, witness))
  unfolding read_payload read_fields check_expiry
  read_payload-payload_of now username witness expiry h lt =
      ap (λ (o : Option (Text × Text)). and_then o (read_fields now))
        (rsplit_once-append 124 (username ++ 124 ∷ witness) (show_decimal expiry)
          (show_decimal-Lacks 124 expiry (omega arith)))
      ∙ ap (λ (o : Option (Text × Text)). and_then o (check_expiry now (show_decimal expiry)))
          (rsplit_once-append 124 username witness h)
      ∙ ap
          (λ (o : Option ℕ). and_then o (λ n. if leb n now then none else some (username, witness)))
          (parse_below-show_decimal (2 ^ 64) expiry lt (omega arith))

  -- A minted token is verified until it expires, and tells the user and the witness that it was minted for,
  -- whatever characters the user's name has.
  pub verify-mint :
      (key : Text) (minted now ttl_secs : ℕ) (username witness : Text)
      → IsCrypto k
      → Lacks 124 witness
      → minted + ttl_secs < 2 ^ 64
      → verify key now (mint key minted username witness ttl_secs)
        ≡ (if leb (minted + ttl_secs) now then none else some (username, witness))
  unfolding verify mint sign_token verify_parts check_signature
  verify-mint key minted now ttl_secs username witness law h lt =
      let text = payload_of username witness (minted + ttl_secs) in
      let payload = k.as_bytes text in
      let sig = k.hmac_sha256 key payload in
      ap (λ (o : Option (Text × Text)). and_then o (verify_parts key now))
        (split_once-append 46 (k.b64 payload) (k.b64 sig)
          (safe-Lacks 46 (k.b64 payload) refl (law.b64-safe payload)))
      ∙ ap
          (λ (o : Option Text).
            and_then o (λ x. and_then (k.b64d (k.b64 sig)) (check_signature key now x)))
          (law.b64d-b64 payload)
      ∙ ap (λ (o : Option Text). and_then o (check_signature key now payload)) (law.b64d-b64 sig)
      ∙ ap (λ b. if b then and_then (k.from_utf8 payload) (read_payload now) else none)
          (same_refl sig)
      ∙ ap (λ (o : Option Text). and_then o (read_payload now)) (law.from_utf8-as_bytes text)
      ∙ read_payload-payload_of now username witness (minted + ttl_secs) h lt

  -- The witness has no separator.
  pub pw_witness-Lacks : (pw_hash : Text) → IsCrypto k → Lacks 124 (pw_witness pw_hash)
  unfolding pw_witness
  pw_witness-Lacks pw_hash law =
      safe-Lacks 124 (take 12 (k.sha256_hex (k.as_bytes pw_hash))) refl (
        take-safe 12 (k.sha256_hex (k.as_bytes pw_hash)) (law.sha256_hex-safe (k.as_bytes pw_hash)))
