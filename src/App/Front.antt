-- ===== src/App/Front.antt =====
-- Who gets past the allow list in front of src/lib.rs's routes.
use llm_rate_limit_proxy.Base.{
  ◌≡◌, ◌⊎◌, inl, inr, sym, ◌∙◌, arith, Bool, true, List, [], Option, Text, codes, ◌||◌, same,
  same_iff, In,
}
use llm_rate_limit_proxy.Base.{◌↔◌}
use llm_rate_limit_proxy.Metrics.{Metrics}
use llm_rate_limit_proxy.Net.{IpAddr, Rule, permitted, is_loopback, mapped_loopback}
use llm_rate_limit_proxy.Net.Cover.{IsCovered, permitted-covers}
use llm_rate_limit_proxy.App.{rules_of, source_allowlist}

source_allowlist-permitted :
    (parse_addr : Text → Option IpAddr) (path : Text) (allow_from : List Text) (peer : IpAddr)
    (m : Metrics)
    → (source_allowlist parse_addr path allow_from peer m).1
      ≡ (same path (codes "/health") || permitted (rules_of parse_addr allow_from) peer)
unfolding source_allowlist
source_allowlist-permitted parse_addr path allow_from peer m = ground arith

-- A caller gets past the allow list exactly when it asks for the health check, or no entry of the list is a
-- rule, or it is the machine itself, or an entry of the list is a rule that covers its address.
pub source_allowlist-covers :
    (parse_addr : Text → Option IpAddr) (path : Text) (allow_from : List Text) (peer : IpAddr)
    (m : Metrics)
    → ((source_allowlist parse_addr path allow_from peer m).1 ≡ true) ↔ (
        (path ≡ codes "/health")
        ⊎ (((rules_of parse_addr allow_from ≡ []) ⊎ (is_loopback peer ≡ true))
            ⊎ ((mapped_loopback peer ≡ true)
                ⊎ ((r : Rule) × In r (rules_of parse_addr allow_from) × IsCovered r peer))))
source_allowlist-covers parse_addr path allow_from peer m =
    let e = source_allowlist-permitted parse_addr path allow_from peer m in
    let covers = permitted-covers (rules_of parse_addr allow_from) peer in
    let health = same_iff path (codes "/health") in
    (
      λ h. elim (or_cases _ _ (sym e ∙ h)) [ inl p ↦ inl (health.0 p) | inr p ↦ inr (covers.0 p) ],
      λ h. e ∙ or_true _ _ (elim h [ inl p ↦ inl (health.1 p) | inr p ↦ inr (covers.1 p) ]),
    )
  where
    or_cases : (a b : Bool) → (a || b) ≡ true → (a ≡ true) ⊎ (b ≡ true)
    or_cases a b h = ground arith

    or_true : (a b : Bool) → (a ≡ true) ⊎ (b ≡ true) → (a || b) ≡ true
    or_true a b h = ground arith
