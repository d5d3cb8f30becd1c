-- ===== src/Config/Urls.antt =====
-- `normalize_base_url` of src/config.rs, with `trim` of the standard library.
pub mod Fixed
use llm_rate_limit_proxy.Base.{
  ℕ, zero, suc, ◌+◌, ◌≤◌, ◌<◌, ◌≡◌, refl, sym, ap, subst, ◌∙◌, ◌⊎◌, inl, inr, arith, Bool, true,
  false, List, [], ◌∷◌, Option, none, some, Text, codes, same, same_iff, leb, ◌==◌, if◌then◌else◌,
  ◌&&◌, ◌||◌, length, is_empty, Bool-cases, Option-cases, unwrap_or, length,
}

-- `char::is_whitespace`: the code points with the property White_Space.
unfoldable pub is_whitespace : ℕ → Bool
is_whitespace c =
    (leb 9 c && leb c 13)
    || (c == 32)
    || (c == 133)
    || (c == 160)
    || (c == 5760)
    || (leb 8192 c && leb c 8202)
    || (c == 8232)
    || (c == 8233)
    || (c == 8239)
    || (c == 8287)
    || (c == 12288)

unfoldable pub is_slash : ℕ → Bool
is_slash c = c == 47

unfoldable pub trim_start_matches : (ℕ → Bool) → Text → Text
trim_start_matches p [] = []
trim_start_matches p (c ∷ s) = if p c then trim_start_matches p s else c ∷ s

unfoldable pub trim_end_matches : (ℕ → Bool) → Text → Text
trim_end_matches p [] = []
trim_end_matches p (c ∷ s) =
    let rest = trim_end_matches p s in if is_empty rest && p c then [] else c ∷ rest

unfoldable pub trim : Text → Text
trim s = trim_end_matches is_whitespace (trim_start_matches is_whitespace s)

unfoldable pub strip_suffix : Text → Text → Option Text
strip_suffix suffix [] = if same suffix [] then some [] else none
strip_suffix suffix (c ∷ s) =
    let rest = strip_suffix suffix s in
    if same (c ∷ s) suffix then some [] else elim rest [ none ↦ none | some t ↦ some (c ∷ t) ]

-- The text without its suffix, if it ends in it.
unfoldable pub without_suffix : Text → Text → Text
without_suffix suffix s = unwrap_or (strip_suffix suffix s) s

-- One round of the loop.
unfoldable pub pass : Text → Text
pass s = without_suffix (codes "/v1") (trim (trim_end_matches is_slash (trim s)))

unfoldable pub rounds : ℕ → Text → Text
rounds zero out = out
rounds (suc fuel) out =
    let next = pass out in let rest = rounds fuel next in if same next out then out else rest

unfoldable pub normalize_base_url : Text → Text
unfolding rounds
normalize_base_url raw = rounds (suc (length raw)) raw
