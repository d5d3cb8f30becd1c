-- ===== src/Proxy/Path.antt =====
-- `normalize_path`, `is_retryable` and `retry_after` of src/proxy.rs.
use llm_rate_limit_proxy.Base.{
  ℕ, zero, suc, ◌^◌, ◌<◌, ◌≡◌, refl, ap, arith, Bool, [], ◌∷◌, ◌++◌, Option, none, some, Text,
  codes, ◌==◌, min, any, length, strip_prefix, strip_prefix-eq-some, ◌*◌,
}
use llm_rate_limit_proxy.Config.Urls.{trim}
use llm_rate_limit_proxy.Net.{parse_below}

unfoldable pub is_retryable : ℕ → Bool
is_retryable status = any (λ s. status == s) (408 ∷ 429 ∷ 500 ∷ 502 ∷ 503 ∷ 504 ∷ 529 ∷ [])

-- The `while let` on fuel.
unfoldable pub collapse : ℕ → Text → Text
collapse zero out = out
collapse (suc fuel) out = elim (strip_prefix (codes "/v1/v1/") out) [
  | none ↦ out
  | some rest ↦ collapse fuel (codes "/v1/" ++ rest)
]

unfoldable pub normalize_path : Text → Text
normalize_path path_query = collapse (suc (length path_query)) path_query

-- Milliseconds.
abbrev pub max_retry_after : ℕ
max_retry_after = 60000

-- `value` is the header, where there is one that is text.
unfoldable pub retry_after : Option Text → Option ℕ
retry_after none = none
retry_after (some value) = elim (parse_below (2 ^ 64) (trim value)) [
  | none ↦ none
  | some secs ↦ some (min (secs * 1000) max_retry_after)
]

shorter :
    (path rest : Text) (fuel : ℕ)
    → length path < suc fuel
    → strip_prefix (codes "/v1/v1/") path ≡ some rest
    → length (codes "/v1/" ++ rest) < fuel
shorter path rest fuel h e =
    omega (arith, ap length (strip_prefix-eq-some (codes "/v1/v1/") path e))

collapse-fixed :
    (fuel : ℕ) (path : Text)
    → length path < fuel
    → strip_prefix (codes "/v1/v1/") (collapse fuel path) ≡ none
unfolding collapse
collapse-fixed zero path h = absurd (omega arith)
collapse-fixed (suc fuel) path h =
    go (strip_prefix (codes "/v1/v1/") path) refl
      (λ rest e. collapse-fixed fuel (codes "/v1/" ++ rest) (shorter path rest fuel h e))
  where
    go :
        (o : Option Text)
        → strip_prefix (codes "/v1/v1/") path ≡ o
        → ((rest : Text)
            → strip_prefix (codes "/v1/v1/") path ≡ some rest
            → strip_prefix (codes "/v1/v1/") (collapse fuel (codes "/v1/" ++ rest)) ≡ none)
        → strip_prefix (codes "/v1/v1/") (elim o as (λ _. Text) [
          | none ↦ path
          | some rest ↦ collapse fuel (codes "/v1/" ++ rest)
        ])
          ≡ none
    go none e again = e
    go (some rest) e again = again rest e

-- The loop ends for every path, and no doubled prefix is left.
pub normalize_path-fixed :
    (path : Text) → strip_prefix (codes "/v1/v1/") (normalize_path path) ≡ none
unfolding normalize_path
normalize_path-fixed path = collapse-fixed (suc (length path)) path (omega arith)
