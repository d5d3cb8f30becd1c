-- ===== src/Auth/Passwords.antt =====
-- `hash_password` and `verify_password` of src/auth.rs.
use llm_rate_limit_proxy.Base.{
  ℕ, ◌^◌, ◌≡◌, refl, ap, ◌∙◌, Bool, true, false, List, [], ◌∷◌, ◌++◌, none, some, Text, codes, ◌&&◌,
  length, same, same_refl,
}
use llm_rate_limit_proxy.Base.{split, split-append, split-Lacks, Lacks}
use llm_rate_limit_proxy.Net.{parse_below, digits}
use llm_rate_limit_proxy.Auth.Crypto.{Crypto, IsCrypto, safe-Lacks}

abbrev pub pbkdf2_rounds : ℕ
pbkdf2_rounds = 600000

abbrev pub hash_prefix : Text
hash_prefix = codes "pbkdf2$sha256$600000$"

module _ (k : Crypto) where
  -- `salt` is random.
  unfoldable pub hash_password : Text → Text → Text
  hash_password salt pw =
      hash_prefix ++ (k.b64 salt ++ 36 ∷ k.b64 (k.pbkdf2 (k.as_bytes pw) salt pbkdf2_rounds 32))

  unfoldable pub check_hash : Text → Text → Text → Text → Bool
  check_hash pw rounds salt hash = elim (parse_below (2 ^ 32) rounds) [
    | none ↦ false
    | some n ↦ elim (k.b64d salt) [
      | none ↦ false
      | some s ↦ elim (k.b64d hash) [
        | none ↦ false
        | some expected ↦ same (k.pbkdf2 (k.as_bytes pw) s n (length expected)) expected
      ]
    ]
  ]

  unfoldable pub verify_parts : Text → List Text → Bool
  unfolding check_hash
  verify_parts pw (scheme ∷ digest ∷ rounds ∷ salt ∷ hash ∷ []) =
      same scheme (codes "pbkdf2")
      && (same digest (codes "sha256") && check_hash pw rounds salt hash)
  verify_parts pw _ = false

  unfoldable pub verify_password : Text → Text → Bool
  unfolding verify_parts
  verify_password pw stored = verify_parts pw (split 36 stored)

  module _ (law : IsCrypto k) where
    safe : (b : Text) → Lacks 36 (k.b64 b)
    safe b = safe-Lacks 36 (k.b64 b) refl (law.b64-safe b)

    split-hash :
        (salt hash : Text)
        → split 36 (hash_prefix ++ (k.b64 salt ++ 36 ∷ k.b64 hash))
          ≡ codes "pbkdf2" ∷ codes "sha256" ∷ codes "600000" ∷ k.b64 salt ∷ k.b64 hash ∷ []
    unfolding split
    split-hash salt hash =
        ap (λ (ps : List Text). codes "pbkdf2" ∷ codes "sha256" ∷ codes "600000" ∷ ps)
          (split-append 36 (k.b64 salt) (k.b64 hash) (safe salt)
            ∙ ap (λ (ps : List Text). k.b64 salt ∷ ps) (split-Lacks 36 (k.b64 hash) (safe hash)))

    check_hash-b64 :
        (pw salt hash : Text)
        → check_hash pw (codes "600000") (k.b64 salt) (k.b64 hash)
          ≡ same (k.pbkdf2 (k.as_bytes pw) salt pbkdf2_rounds (length hash)) hash
    unfolding check_hash parse_below digits
    check_hash-b64 pw salt hash = rw (law.b64d-b64 salt, law.b64d-b64 hash) refl

    -- A password is accepted against a stored hash exactly if it has the same digest, under the hash's salt, as the
    -- password that was hashed; so it is accepted against its own.
    pub verify_password-hash_password :
        (pw other salt : Text)
        → (verify_password other (hash_password salt pw)
            ≡ same
                (k.pbkdf2 (k.as_bytes other) salt pbkdf2_rounds 32)
                (k.pbkdf2 (k.as_bytes pw) salt pbkdf2_rounds 32))
          × (verify_password pw (hash_password salt pw) ≡ true)
    unfolding verify_password hash_password same
    verify_password-hash_password pw other salt =
        (agree other, agree pw ∙ same_refl (k.pbkdf2 (k.as_bytes pw) salt pbkdf2_rounds 32))
      where
        hash : Text
        hash = k.pbkdf2 (k.as_bytes pw) salt pbkdf2_rounds 32

        agree :
            (p : Text)
            → verify_password p (hash_password salt pw)
              ≡ same (k.pbkdf2 (k.as_bytes p) salt pbkdf2_rounds 32) hash
        agree p =
            ap (verify_parts p) (split-hash salt hash)
            ∙ check_hash-b64 p salt hash
            ∙ ap (λ n. same (k.pbkdf2 (k.as_bytes p) salt pbkdf2_rounds n) hash)
                (law.pbkdf2-length (k.as_bytes pw) salt pbkdf2_rounds 32)
