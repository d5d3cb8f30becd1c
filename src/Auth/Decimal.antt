-- ===== src/Auth/Decimal.antt =====
-- Decimal numbers as src/auth.rs prints and reads them.
use llm_rate_limit_proxy.Base.{
  ℕ, zero, suc, ◌+◌, ◌/◌, ◌%◌, ◌≤◌, ◌<◌, ◌≡◌, inl, inr, ◌∙◌, arith, [], ◌∷◌, some, Text, ltb,
  if◌then◌else◌, Bool-cases, on_if,
}
use llm_rate_limit_proxy.Base.{Lacks}
use llm_rate_limit_proxy.Net.{digits, parse_below}

-- `acc` behind the digits of `n`, on fuel.
unfoldable pub show_before : ℕ → ℕ → Text → Text
show_before zero n acc = acc
show_before (suc fuel) n acc =
    let rest = show_before fuel (n / 10) ((48 + n % 10) ∷ acc) in
    if ltb n 10 then (48 + n) ∷ acc else rest

-- `{n}` in a format.
unfoldable pub show_decimal : ℕ → Text
unfolding show_before
show_decimal n = show_before (suc n) n []

digits-show_before :
    (bound fuel n : ℕ) (acc : Text)
    → n < fuel
    → n < bound
    → 10 ≤ bound
    → digits bound 0 (show_before fuel n acc) ≡ digits bound n acc
unfolding digits show_before
digits-show_before bound zero n acc h lt ten = absurd (omega arith)
digits-show_before bound (suc fuel) n acc h lt ten = elim (Bool-cases (ltb n 10)) [
  | inl e ↦ rw (e) (ground arith)
  | inr e ↦ rw (e) (
      digits-show_before bound fuel (n / 10) ((48 + n % 10) ∷ acc) (ground arith) (ground arith) ten
      ∙ ground arith)
]

-- What begins with a digit.
abbrev StartsDigit : Text → Type 0
StartsDigit [] = ⊥
StartsDigit (c ∷ s) = (48 ≤ c) × (c ≤ 57)

show_before-starts : (fuel n : ℕ) (acc : Text) → n < fuel → StartsDigit (show_before fuel n acc)
unfolding show_before
show_before-starts zero n acc h = absurd (omega arith)
show_before-starts (suc fuel) n acc h = elim (Bool-cases (ltb n 10)) [
  | inl e ↦ rw (e) (ground arith)
  | inr e ↦ rw (e) (show_before-starts fuel (n / 10) ((48 + n % 10) ∷ acc) (ground arith))
]

parse_below-digits :
    (bound : ℕ) (s : Text) → 10 ≤ bound → StartsDigit s → parse_below bound s ≡ digits bound 0 s
unfolding parse_below digits
parse_below-digits bound [] ten h = elim h [ ]
parse_below-digits bound (c ∷ []) ten h = ground arith
parse_below-digits bound (c ∷ d ∷ s) ten h = ground arith

-- A number in range is read back from its print.
pub parse_below-show_decimal :
    (bound n : ℕ) → n < bound → 10 ≤ bound → parse_below bound (show_decimal n) ≡ some n
unfolding show_decimal digits
parse_below-show_decimal bound n lt ten =
    parse_below-digits bound (show_before (suc n) n []) ten
      (show_before-starts (suc n) n [] (omega arith))
    ∙ digits-show_before bound (suc n) n [] (omega arith) lt ten

show_before-Lacks :
    (sep fuel n : ℕ) (acc : Text) → 57 < sep → Lacks sep acc → Lacks sep (show_before fuel n acc)
unfolding show_before
show_before-Lacks sep zero n acc h la = la
show_before-Lacks sep (suc fuel) n acc h la =
    on_if (Lacks sep) (ltb n 10) ((48 + n) ∷ acc) _ (λ e. (ground arith, la))
      (λ e. show_before-Lacks sep fuel (n / 10) ((48 + n % 10) ∷ acc) h (ground arith, la))

pub show_decimal-Lacks : (sep n : ℕ) → 57 < sep → Lacks sep (show_decimal n)
unfolding show_decimal
show_decimal-Lacks sep n h = show_before-Lacks sep (suc n) n [] h tt
