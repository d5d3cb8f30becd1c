-- ===== src/Dispatch/Match.antt =====
-- The skip test of src/dispatch.rs, read as conditions on the query and the lane.
use llm_rate_limit_proxy.Base.{
  ℕ, ◌≡◌, ◌≢◌, refl, Bool, false, not, List, [], ◌∷◌, some, any, arith, In, here, there, ◌==◌,
  is_some_and, same, same_iff, Text, ◌||◌,
}
use llm_rate_limit_proxy.Config.{Protocol, open_ai, anthropic, same_protocol}
use llm_rate_limit_proxy.Pool.Lane.{Lane}
use llm_rate_limit_proxy.Dispatch.{Query, passed_over}

-- Of the provider and the protocol that are asked for, if any, and not among the excluded lanes.
pub record IsMatch (q : Query) (idx : ℕ) (l : Lane) : Type 0 where
  pub provider : (name : Text) → q.provider ≡ some name → l.provider ≡ name
  pub protocol : (w : Protocol) → q.protocol ≡ some w → l.protocol ≡ w
  pub untried : (i : ℕ) → In i q.exclude → i ≢ idx

any-false : (p : ℕ → Bool) (xs : List ℕ) (i : ℕ) → any p xs ≡ false → In i xs → p i ≡ false
unfolding any
any-false p [] i h m = elim m [ ]
any-false p (x ∷ xs) _ h here = ground arith
any-false p (x ∷ xs) i h (there m) = any-false p xs i (ground arith) m

same_protocol-eq : (a b : Protocol) → not (same_protocol a b) ≡ false → a ≡ b
unfolding same_protocol
same_protocol-eq open_ai open_ai h = refl
same_protocol-eq anthropic anthropic h = refl
same_protocol-eq open_ai anthropic h = absurd (ground arith)
same_protocol-eq anthropic open_ai h = absurd (ground arith)

or_false : (a b c : Bool) → (a || (b || c)) ≡ false → (a ≡ false) × (b ≡ false) × (c ≡ false)
or_false a b c h = (ground arith, ground arith, ground arith)

pub passed_over-IsMatch :
    (q : Query) (idx : ℕ) (l : Lane) → passed_over q idx l ≡ false → IsMatch q idx l
unfolding passed_over
passed_over-IsMatch q idx l h =
    let tests =
      or_false (is_some_and q.provider (λ p. not (same l.provider p)))
        (is_some_and q.protocol (λ w. not (same_protocol l.protocol w)))
        (any (λ x. x == idx) q.exclude) h in
    record {
      provider = λ name e. ground (arith, same_iff l.provider name, tests.0);
      protocol = λ w e. same_protocol-eq l.protocol w (ground (arith, tests.1));
      untried = λ i m e. let no = any-false (λ x. x == idx) q.exclude i tests.2 m in ground arith;
    }
