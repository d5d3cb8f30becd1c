-- ===== src/Auth/Cookies.antt =====
-- The session cookie of src/auth.rs.
use llm_rate_limit_proxy.Base.{
  ℕ, ◌≡◌, refl, ap, ◌∙◌, arith, Bool, false, List, [], ◌∷◌, ◌++◌, Option, none, some, Text, codes,
  ◌==◌, if◌then◌else◌, and_then, or_option, any, All, strip_prefix,
}
use llm_rate_limit_proxy.Base.{All-append, split, split-Lacks, Lacks, strip_prefix-append}
use llm_rate_limit_proxy.Config.Urls.{trim, is_whitespace, trim_start_matches, trim_end_matches}

abbrev pub session_prefix : Text
session_prefix = codes "llm_rate_limit_proxy_session="

unfoldable pub session_cookie : Text → Bool → Text
session_cookie token secure =
    let c =
      session_prefix ++ (token ++ codes "; HttpOnly; SameSite=Strict; Path=/; Max-Age=43200") in
    if secure then c ++ codes "; Secure" else c

unfoldable pub clear_cookie : Bool → Text
clear_cookie secure =
    let c = session_prefix ++ codes "; HttpOnly; SameSite=Strict; Path=/; Max-Age=0" in
    if secure then c ++ codes "; Secure" else c

unfoldable pub find_session : List Text → Option Text
find_session [] = none
find_session (p ∷ ps) = or_option (strip_prefix session_prefix (trim p)) (find_session ps)

unfoldable pub session_from_cookies : Option Text → Option Text
unfolding find_session
session_from_cookies header = and_then header (λ h. find_session (split 59 h))

-- No character of the text is white space.
abbrev pub IsSolid : Text → Type 0
IsSolid s = All (λ c. is_whitespace c ≡ false) s

trim_end-solid : (s : Text) → IsSolid s → trim_end_matches is_whitespace s ≡ s
unfolding trim_end_matches
trim_end-solid [] h = refl
trim_end-solid (c ∷ s) h = ground (arith, trim_end-solid s h.1, h.0)

trim-solid : (s : Text) → IsSolid s → trim s ≡ s
unfolding trim trim_start_matches
trim-solid [] h = unfold trim_end_matches in refl
trim-solid (c ∷ s) h = rw (h.0) (trim_end-solid (c ∷ s) h)

any-All : (p : ℕ → Bool) (s : Text) → any p s ≡ false → All (λ c. p c ≡ false) s
unfolding any
any-All p [] h = tt
any-All p (c ∷ s) h = (ground arith, any-All p s (ground arith))

-- A header with the session's cookie alone gives its token back.
pub session_from_cookies-prefix :
    (token : Text)
    → IsSolid token
    → Lacks 59 token
    → session_from_cookies (some (session_prefix ++ token)) ≡ some token
unfolding session_from_cookies find_session
session_from_cookies-prefix token solid lacks =
    ap find_session (split-Lacks 59 (session_prefix ++ token) (clean lacks))
    ∙ ap (λ (t : Text). or_option (strip_prefix session_prefix t) none)
        (trim-solid (session_prefix ++ token) (firm solid))
    ∙ ap (λ (o : Option Text). or_option o none) (strip_prefix-append session_prefix token)
    ∙ refl
  where
    clean : Lacks 59 token → Lacks 59 (session_prefix ++ token)
    clean l =
        All-append (λ c. (c == 59) ≡ false) session_prefix token
          (any-All (λ c. c == 59) session_prefix (unfold any in refl)) l

    firm : IsSolid token → IsSolid (session_prefix ++ token)
    firm l =
        All-append (λ c. is_whitespace c ≡ false) session_prefix token
          (any-All is_whitespace session_prefix (unfold any is_whitespace in refl)) l
