-- ===== src/Config/Urls/Fixed.antt =====
-- What the loop of `normalize_base_url` in src/config.rs ends in.
use llm_rate_limit_proxy.Base.{
  ℕ, zero, suc, ◌≤◌, ◌<◌, ◌≡◌, refl, sym, ap, subst, ◌∙◌, ◌⊎◌, inl, inr, arith, Bool, [], ◌∷◌,
  Option, none, some, Text, codes, same, same_iff, ◌&&◌, length, is_empty, Bool-cases, Option-cases,
  unwrap_or, length,
}
use llm_rate_limit_proxy.Config.Urls.{
  is_whitespace, is_slash, trim_start_matches, trim_end_matches, trim, strip_suffix, without_suffix,
  pass, rounds, normalize_base_url,
}

-- A function that returns its argument or a shorter text.
IsShrinking : (Text → Text) → Type 0
IsShrinking f = (s : Text) → (f s ≡ s) ⊎ (length (f s) < length s)

trim_start_matches-le : (p : ℕ → Bool) (s : Text) → length (trim_start_matches p s) ≤ length s
unfolding trim_start_matches
trim_start_matches-le p [] = omega arith
trim_start_matches-le p (c ∷ s) = ground (arith, trim_start_matches-le p s)

trim_start_matches-IsShrinking : (p : ℕ → Bool) → IsShrinking (trim_start_matches p)
unfolding IsShrinking trim_start_matches
trim_start_matches-IsShrinking p [] = inl refl
trim_start_matches-IsShrinking p (c ∷ s) = elim (Bool-cases (p c)) [
  | inl e ↦ rw (e) (inr (omega (arith, trim_start_matches-le p s)))
  | inr e ↦ rw (e) (inl refl)
]

trim_end_matches-IsShrinking : (p : ℕ → Bool) → IsShrinking (trim_end_matches p)
unfolding IsShrinking trim_end_matches
trim_end_matches-IsShrinking p [] = inl refl
trim_end_matches-IsShrinking p (c ∷ s) =
    elim (Bool-cases (is_empty (trim_end_matches p s) && p c)) [
      | inl e ↦ rw (e) (inr (omega arith))
      | inr e ↦ rw (e) (elim (trim_end_matches-IsShrinking p s) [
        | inl q ↦ inl (ap (λ t. c ∷ t) q)
        | inr q ↦ inr (omega arith)
      ])
    ]

strip_suffix-lt :
    (suffix s : Text) {t : Text}
    → 0 < length suffix
    → strip_suffix suffix s ≡ some t
    → length t < length s
unfolding strip_suffix same
strip_suffix-lt [] s pos h = absurd (omega arith)
strip_suffix-lt (d ∷ suffix) [] pos h = absurd (ground arith)
strip_suffix-lt (d ∷ suffix) (c ∷ s) {t} pos h = elim (Option-cases (strip_suffix (d ∷ suffix) s)) [
  | inl e ↦ ground arith
  | inr (r, e) ↦ let less = strip_suffix-lt (d ∷ suffix) s pos e in ground arith
]

without_suffix-IsShrinking :
    (suffix : Text) → 0 < length suffix → IsShrinking (without_suffix suffix)
unfolding IsShrinking without_suffix
without_suffix-IsShrinking suffix pos s = elim (Option-cases (strip_suffix suffix s)) [
  | inl e ↦ rw (e) (inl refl)
  | inr (t, e) ↦ rw (e) (inr (strip_suffix-lt suffix s pos e))
]

no_suffix :
    (suffix s : Text)
    → 0 < length suffix
    → without_suffix suffix s ≡ s
    → strip_suffix suffix s ≡ none
unfolding without_suffix
no_suffix suffix s pos h = elim (Option-cases (strip_suffix suffix s)) [
  | inl e ↦ e
  | inr (t, e) ↦ absurd (
      let less = strip_suffix-lt suffix s pos e in
      omega (arith, ap (λ (o : Option Text). length (unwrap_or o s)) e, ap length h))
]

-- A composite of such functions fixes a text only when each does.
compose-IsShrinking :
    (f g : Text → Text) → IsShrinking f → IsShrinking g → IsShrinking (λ s. g (f s))
unfolding IsShrinking
compose-IsShrinking f g hf hg s = elim (hg (f s)) [
  | inl e ↦ elim (hf s) [
    | inl q ↦ inl (e ∙ q)
    | inr q ↦ inr (subst (λ (t : Text). length t < length s) (sym e) q)
  ]
  | inr e ↦ elim (hf s) [ inl q ↦ inr (omega (arith, ap length q)) | inr q ↦ inr (omega arith) ]
]

compose-fixed :
    (f g : Text → Text)
    → IsShrinking f
    → IsShrinking g
    → (s : Text) → g (f s) ≡ s
    → (f s ≡ s) × (g s ≡ s)
unfolding IsShrinking
compose-fixed f g hf hg s e = elim (hf s) [
  | inl q ↦ (q, ap g (sym q) ∙ e)
  | inr q ↦ elim (hg (f s)) [
    | inl r ↦ absurd (omega (arith, ap length e, ap length r))
    | inr r ↦ absurd (omega (arith, ap length e))
  ]
]

trim-IsShrinking : IsShrinking trim
unfolding trim
trim-IsShrinking =
    compose-IsShrinking _ _ (trim_start_matches-IsShrinking is_whitespace)
      (trim_end_matches-IsShrinking is_whitespace)

inner-IsShrinking : IsShrinking (λ s. trim (trim_end_matches is_slash (trim s)))
inner-IsShrinking =
    compose-IsShrinking _ _
      (compose-IsShrinking _ _ trim-IsShrinking (trim_end_matches-IsShrinking is_slash))
      trim-IsShrinking

suffix-IsShrinking : IsShrinking (without_suffix (codes "/v1"))
suffix-IsShrinking = without_suffix-IsShrinking (codes "/v1") (omega arith)

pass-IsShrinking : IsShrinking pass
unfolding pass
pass-IsShrinking = compose-IsShrinking _ _ inner-IsShrinking suffix-IsShrinking

rounds-fixed : (fuel : ℕ) (s : Text) → length s < fuel → pass (rounds fuel s) ≡ rounds fuel s
unfolding rounds IsShrinking
rounds-fixed zero s h = absurd (omega arith)
rounds-fixed (suc fuel) s h = elim (Bool-cases (same (pass s) s)) [
  | inl e ↦ rw (e) ((same_iff (pass s) s).0 e)
  | inr e ↦ rw (e) (elim (pass-IsShrinking s) [
    | inl q ↦ absurd (let t = (same_iff (pass s) s).1 q in ground arith)
    | inr q ↦ rounds-fixed fuel (pass s) (omega arith)
  ])
]

-- The loop ends, for every input: as many rounds as the input has characters and one more reach a text
-- that a further round leaves as it is. That text has no white space around it, no slash at its end and
-- no `/v1` at its end.
pub normalize_base_url-fixed :
    (raw : Text)
    → let url = normalize_base_url raw in
      (pass url ≡ url)
      × (trim url ≡ url)
      × (trim_end_matches is_slash url ≡ url)
      × (strip_suffix (codes "/v1") url ≡ none)
unfolding normalize_base_url pass
normalize_base_url-fixed raw =
    let url = normalize_base_url raw in
    let fixed = rounds-fixed (suc (length raw)) raw (omega arith) in
    let outer = compose-fixed _ _ inner-IsShrinking suffix-IsShrinking url fixed in
    let middle =
      compose-fixed _ _
        (compose-IsShrinking _ _ trim-IsShrinking (trim_end_matches-IsShrinking is_slash))
        trim-IsShrinking url outer.0 in
    let slashes =
      compose-fixed _ _ trim-IsShrinking (trim_end_matches-IsShrinking is_slash) url middle.0 in
    (fixed, slashes.0, slashes.1, no_suffix (codes "/v1") url (omega arith) outer.1)

normalize_base_url-of_fixed : (url : Text) → pass url ≡ url → normalize_base_url url ≡ url
unfolding normalize_base_url rounds
normalize_base_url-of_fixed url e = rw ((same_iff (pass url) url).1 e) refl

-- Normalizing what is normal changes nothing.
pub normalize_base_url-twice :
    (raw : Text) → normalize_base_url (normalize_base_url raw) ≡ normalize_base_url raw
normalize_base_url-twice raw =
    normalize_base_url-of_fixed (normalize_base_url raw) (normalize_base_url-fixed raw).0
