-- ===== src/Net.antt =====
-- src/net.rs: the allow list. An address is its number; the parser of addresses, which is the standard
-- library's, is a parameter.
pub mod Cover
use llm_rate_limit_proxy.Base.{
  ℕ, zero, suc, ◌+◌, ◌-◌, ◌*◌, ◌/◌, ◌%◌, ◌^◌, Bool, true, false, List, [], ◌∷◌, Option, none, some,
  Text, ltb, leb, ◌==◌, if◌then◌else◌, ◌&&◌, ◌||◌, any, is_empty, is_some_and, unwrap_or,
}
use llm_rate_limit_proxy.Config.Urls.{trim}

pub data IpAddr : Type 0 where
  v4 v6 : ℕ → IpAddr

pub record Rule : Type 0 where
  pub addr : IpAddr
  pub bits : ℕ

-- `str::parse` of an unsigned type whose values are below `bound`: an optional plus sign, then digits.
abbrev pub is_digit : ℕ → Bool
is_digit c = leb 48 c && leb c 57

unfoldable pub digits : ℕ → ℕ → Text → Option ℕ
digits bound n [] = some n
digits bound n (c ∷ s) =
    let next = n * 10 + (c - 48) in
    let rest = digits bound next s in if is_digit c && ltb next bound then rest else none

unfoldable pub parse_below : ℕ → Text → Option ℕ
unfolding digits
parse_below bound [] = none
parse_below bound (c ∷ []) = if is_digit c then some (c - 48) else none
parse_below bound (c ∷ d ∷ s) =
    if c == 43 then digits bound 0 (d ∷ s) else digits bound 0 (c ∷ d ∷ s)

-- `split_once('/')`.
unfoldable pub split_once : ℕ → Text → Option (Text × Text)
split_once sep [] = none
split_once sep (c ∷ s) =
    let rest = split_once sep s in
    if c == sep then some ([], s) else elim rest [ none ↦ none | some (a, b) ↦ some (c ∷ a, b) ]

abbrev pub width : IpAddr → ℕ
width (v4 n) = 32
width (v6 n) = 128

unfoldable pub rule_of : IpAddr → Option ℕ → Option Rule
rule_of addr bits =
    let b = unwrap_or bits (width addr) in
    if leb b (width addr) then some (record { addr = addr; bits = b }) else none

module _ (parse_addr : Text → Option IpAddr) where
  unfoldable pub parse_rule : Text → Option Rule
  unfolding rule_of
  parse_rule s = elim (split_once 47 (trim s)) [
    | none ↦ elim (parse_addr (trim s)) [ none ↦ none | some addr ↦ rule_of addr none ]
    | some (a, b) ↦ elim (parse_below 256 b) [
      | none ↦ none
      | some bits ↦ elim (parse_addr a) [ none ↦ none | some addr ↦ rule_of addr (some bits) ]
    ]
  ]

-- `n & (MAX << shift)`: the lowest bits are cleared.
abbrev pub masked : ℕ → ℕ → ℕ
masked shift n = n / 2 ^ shift * 2 ^ shift

unfoldable pub same_block : ℕ → ℕ → ℕ → ℕ → Bool
same_block w bits net ip = if bits == 0 then true else masked (w - bits) net == masked (w - bits) ip

-- An IPv4-mapped address, `::ffff:0:0/96`.
unfoldable pub to_ipv4_mapped : ℕ → Option ℕ
to_ipv4_mapped n = if n / 2 ^ 32 == 65535 then some (n % 2 ^ 32) else none

-- A rule for IPv4 and the address that is behind a mapped one.
unfoldable pub matches : Rule → IpAddr → Bool
unfolding same_block to_ipv4_mapped
matches rule peer = elim rule.addr [
  | v4 net ↦ elim peer [
    | v4 ip ↦ same_block 32 rule.bits net ip
    | v6 n ↦ is_some_and (to_ipv4_mapped n) (λ ip. same_block 32 rule.bits net ip)
  ]
  | v6 net ↦ elim peer [ v4 ip ↦ false | v6 ip ↦ same_block 128 rule.bits net ip ]
]

unfoldable pub is_loopback : IpAddr → Bool
is_loopback (v4 n) = n / 2 ^ 24 == 127
is_loopback (v6 n) = n == 1

unfoldable pub mapped_loopback : IpAddr → Bool
mapped_loopback (v4 n) = false
mapped_loopback (v6 n) = is_some_and (to_ipv4_mapped n) (λ ip. is_loopback (v4 ip))

unfoldable pub permitted : List Rule → IpAddr → Bool
unfolding matches is_loopback mapped_loopback
permitted rules peer =
    (is_empty rules || is_loopback peer)
    || (mapped_loopback peer || any (λ r. matches r peer) rules)
