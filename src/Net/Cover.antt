-- ===== src/Net/Cover.antt =====
-- Which addresses a list of rules lets through.
use llm_rate_limit_proxy.Base.{
  ℕ, zero, suc, is_some_and, ◌+◌, ◌-◌, ◌*◌, ◌/◌, ◌^◌, ◌<◌, ◌≡◌, ◌⊎◌, ◌↔◌, inl, inr, refl, arith,
  Bool, true, List, [], ◌∷◌, Option, some, any, In, here, there, Bool-cases, Option-cases, suc, ap,
  sym, ◌∙◌, is_empty,
}
use llm_rate_limit_proxy.Net.{
  IpAddr, v4, v6, Rule, same_block, to_ipv4_mapped, matches, is_loopback, mapped_loopback,
  permitted,
}

-- The blocks of `2 ^ (w - bits)` addresses that hold two addresses of width `w` are one.
unfoldable pub IsSameBlock : ℕ → ℕ → ℕ → ℕ → Type 0
IsSameBlock w bits a b = (bits ≡ 0) ⊎ (a / 2 ^ (w - bits) ≡ b / 2 ^ (w - bits))

-- The address as a number of the rule's family: a mapped address counts as the IPv4 address in it for
-- the rules of that family.
pub data IsCovered (r : Rule) : IpAddr → Type 0 where
  four : {net ip : ℕ} → r.addr ≡ v4 net → IsSameBlock 32 r.bits net ip → IsCovered r (v4 ip)
  six : {net ip : ℕ} → r.addr ≡ v6 net → IsSameBlock 128 r.bits net ip → IsCovered r (v6 ip)
  mapped :
      {net n ip : ℕ}
      → r.addr ≡ v4 net
      → n ≡ 65535 * 2 ^ 32 + ip
      → ip < 2 ^ 32
      → IsSameBlock 32 r.bits net ip
      → IsCovered r (v6 n)

pow-pos : (k : ℕ) → 0 < 2 ^ k
pow-pos zero = omega arith
pow-pos (suc k) = omega (arith, pow-pos k)

times-injective : (p a b : ℕ) → 0 < p → a * p ≡ b * p → a ≡ b
times-injective p zero zero pos h = refl
times-injective p zero (suc b) pos h = absurd (omega arith)
times-injective p (suc a) zero pos h = absurd (omega arith)
times-injective p (suc a) (suc b) pos h = ap suc (times-injective p a b pos (omega arith))

same_block-IsSameBlock : (w bits a b : ℕ) → (same_block w bits a b ≡ true) ↔ IsSameBlock w bits a b
unfolding same_block IsSameBlock
same_block-IsSameBlock w bits a b =
    let p = 2 ^ (w - bits) in
    let inj = times-injective p (a / p) (b / p) (pow-pos (w - bits)) in ground (arith, inj)

any-In_to :
    (p : Rule → Bool) (rs : List Rule) → any p rs ≡ true → (r : Rule) × In r rs × (p r ≡ true)
unfolding any
any-In_to p [] h = absurd (ground arith)
any-In_to p (r ∷ rs) h = elim (Bool-cases (p r)) [
  | inl e ↦ (r, here, e)
  | inr e ↦ let (q, m, e') = any-In_to p rs (ground arith) in (q, there m, e')
]

any-In_from : (p : Rule → Bool) (rs : List Rule) (r : Rule) → In r rs → p r ≡ true → any p rs ≡ true
unfolding any
any-In_from p [] r m e = elim m [ ]
any-In_from p (_ ∷ rs) _ here e = rw (e) refl
any-In_from p (q ∷ rs) r (there m) e = let rest = any-In_from p rs r m e in ground arith

mapped-shape :
    (n ip : ℕ) → (to_ipv4_mapped n ≡ some ip) ↔ ((n ≡ 65535 * 2 ^ 32 + ip) × (ip < 2 ^ 32))
unfolding to_ipv4_mapped
mapped-shape n ip = ground arith

matches-to :
    (addr : IpAddr) (bits : ℕ) (peer : IpAddr)
    → matches (record { addr = addr; bits = bits }) peer ≡ true
    → IsCovered (record { addr = addr; bits = bits }) peer
unfolding matches
matches-to (v4 net) bits (v4 ip) h = four refl ((same_block-IsSameBlock 32 bits net ip).0 h)
matches-to (v6 net) bits (v6 ip) h = six refl ((same_block-IsSameBlock 128 bits net ip).0 h)
matches-to (v6 net) bits (v4 ip) h = absurd (ground arith)
matches-to (v4 net) bits (v6 n) h = elim (Option-cases (to_ipv4_mapped n)) [
  | inl e ↦ absurd (
      let q = ap (λ (o : Option ℕ). is_some_and o (λ ip. same_block 32 bits net ip)) e in
      ground arith)
  | inr (ip, e) ↦
      let (shape, small) = (mapped-shape n ip).0 e in
      let q = ap (λ (o : Option ℕ). is_some_and o (λ ip. same_block 32 bits net ip)) e in
      mapped refl shape small ((same_block-IsSameBlock 32 bits net ip).0 (sym q ∙ h))
]

matches-from : (r : Rule) (peer : IpAddr) → IsCovered r peer → matches r peer ≡ true
unfolding matches
matches-from r (v4 ip) (four {net} e b) = rw (e) ((same_block-IsSameBlock 32 r.bits net ip).1 b)
matches-from r (v6 ip) (six {net} e b) = rw (e) ((same_block-IsSameBlock 128 r.bits net ip).1 b)
matches-from r (v6 _) (mapped {net} {n} {ip} e shape small b) =
    rw (e, (mapped-shape n ip).1 (shape, small)) ((same_block-IsSameBlock 32 r.bits net ip).1 b)

empty-nil : (rs : List Rule) → is_empty rs ≡ true → rs ≡ []
empty-nil [] h = refl
empty-nil (r ∷ rs) h = absurd (ground arith)

-- A caller is let through exactly when there is no rule, or it is the machine itself, or a rule covers its
-- address; a mapped address counts as the IPv4 address in it, and no other address crosses families.
pub permitted-covers :
    (rules : List Rule) (peer : IpAddr)
    → (permitted rules peer ≡ true) ↔ (
        ((rules ≡ []) ⊎ (is_loopback peer ≡ true))
        ⊎ ((mapped_loopback peer ≡ true) ⊎ ((r : Rule) × In r rules × IsCovered r peer)))
unfolding permitted
permitted-covers rules peer = (to, from)
  where
    to :
        permitted rules peer ≡ true
        → ((rules ≡ []) ⊎ (is_loopback peer ≡ true))
          ⊎ ((mapped_loopback peer ≡ true) ⊎ ((r : Rule) × In r rules × IsCovered r peer))
    to h = elim (Bool-cases (is_empty rules)) [
      | inl e ↦ inl (inl (empty-nil rules e))
      | inr e ↦ elim (Bool-cases (is_loopback peer)) [
        | inl l ↦ inl (inr l)
        | inr l ↦ elim (Bool-cases (mapped_loopback peer)) [
          | inl m ↦ inr (inl m)
          | inr m ↦
              let (r, i, c) = any-In_to (λ r. matches r peer) rules (ground arith) in
              inr (inr (r, i, matches-to r.addr r.bits peer c))
        ]
      ]
    ]

    from :
        (((rules ≡ []) ⊎ (is_loopback peer ≡ true))
          ⊎ ((mapped_loopback peer ≡ true) ⊎ ((r : Rule) × In r rules × IsCovered r peer)))
        → permitted rules peer ≡ true
    from (inl (inl e)) = rw (e) refl
    from (inl (inr e)) = ground arith
    from (inr (inl e)) = ground arith
    from (inr (inr (r, m, c))) =
        let any_e = any-In_from (λ r. matches r peer) rules r m (matches-from r peer c) in
        ground arith
