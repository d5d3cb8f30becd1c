-- ===== src/Proxy/Headers.antt =====
-- The headers of src/proxy.rs: which of the client's are forwarded, and what `build_request` adds. Names are in
-- lower case, as the header map holds them, and headers whose value is not text are left out.
use llm_rate_limit_proxy.Base.{
  ◌≢◌, sym, same_iff, ℕ, ◌+◌, ◌^◌, ◌≡◌, ◌⊎◌, inl, inr, refl, arith, Bool, false, not, List, [], ◌∷◌,
  ◌++◌, Option, some, Text, codes, if◌then◌else◌, ◌&&◌, ◌||◌, retain, and_then, any, same, All,
  All-append, on_if,
}
use llm_rate_limit_proxy.Base.Assoc.{get}
use llm_rate_limit_proxy.Config.{Protocol, open_ai, anthropic}
use llm_rate_limit_proxy.Config.Urls.{trim}
use llm_rate_limit_proxy.Net.{parse_below}
use llm_rate_limit_proxy.Dispatch.{Permit}

unfoldable pub is_one_of : List Text → Text → Bool
is_one_of names name = any (λ n. same n name) names

unfoldable pub is_hop_by_hop : Text → Bool
unfolding is_one_of
is_hop_by_hop name =
    is_one_of
      (codes "connection"
        ∷ codes "keep-alive"
        ∷ codes "proxy-authenticate"
        ∷ codes "proxy-authorization"
        ∷ codes "te"
        ∷ codes "trailer"
        ∷ codes "transfer-encoding"
        ∷ codes "upgrade"
        ∷ codes "host"
        ∷ codes "content-length"
        ∷ [])
      name

-- The client's credentials stay here.
unfoldable pub is_secret : Text → Bool
is_secret name = same name (codes "authorization") || same name (codes "x-api-key")

unfoldable pub forwarded : List (Text × Text) → List (Text × Text)
unfolding is_secret is_hop_by_hop
forwarded headers =
    retain (λ (h : Text × Text). not (is_secret h.0) && not (is_hop_by_hop h.0)) headers

-- `Instant::now()` is `now`; both in milliseconds.
unfoldable pub parse_deadline : ℕ → List (Text × Text) → Option ℕ
parse_deadline now headers =
    and_then (get (codes "x-llm-rate-limit-proxy-deadline-ms") headers)
      (λ value. and_then (parse_below (2 ^ 64) (trim value)) (λ ms. some (now + ms)))

abbrev pub anthropic_version : Text
anthropic_version = codes "2023-06-01"

pub record Outbound : Type 0 where
  pub url : Text
  pub headers : List (Text × Text)
  pub body : Text

-- The headers for the key of the lane.
unfoldable pub key_headers : Permit → List (Text × Text) → List (Text × Text)
key_headers permit fwd = elim permit.protocol [
  | open_ai ↦ (codes "authorization", codes "Bearer " ++ permit.key) ∷ []
  | anthropic ↦
      (codes "x-api-key", permit.key)
      ∷ (if any (λ (h : Text × Text). same h.0 (codes "anthropic-version")) fwd
          then []
          else (codes "anthropic-version", anthropic_version) ∷ [])
]

unfoldable pub build_request : Permit → Text → List (Text × Text) → Text → Outbound
unfolding key_headers
build_request permit path_query fwd_headers body = record {
  url = permit.base_url ++ path_query;
  headers = fwd_headers ++ key_headers permit fwd_headers;
  body = body;
}

-- A header that is none of the three that carry a key, or that carries the key of the lane.
unfoldable pub IsOwn : Permit → Text × Text → Type 0
IsOwn permit h =
    ((h.0 ≢ codes "authorization")
      × (h.0 ≢ codes "x-api-key")
      × (h.0 ≢ codes "proxy-authorization"))
    ⊎ ((h.1 ≡ permit.key) ⊎ (h.1 ≡ codes "Bearer " ++ permit.key))

same-ne : (a b : Text) → same a b ≡ false → a ≢ b
same-ne a b h e = ground (arith, same_iff a b)

is_secret-ne :
    (name : Text)
    → is_secret name ≡ false
    → is_hop_by_hop name ≡ false
    → (name ≢ codes "authorization")
      × (name ≢ codes "x-api-key")
      × (name ≢ codes "proxy-authorization")
unfolding is_secret is_hop_by_hop is_one_of any
is_secret-ne name h hop = (
  same-ne name (codes "authorization") (ground arith),
  same-ne name (codes "x-api-key") (ground arith),
  λ e. absurd (ground (arith, hop, (same_iff (codes "proxy-authorization") name).1 (sym e))),
)

forwarded-IsOwn :
    (permit : Permit) (headers : List (Text × Text)) → All (IsOwn permit) (forwarded headers)
unfolding forwarded retain IsOwn
forwarded-IsOwn permit [] = tt
forwarded-IsOwn permit (h ∷ hs) =
    on_if (All (IsOwn permit)) (not (is_secret h.0) && not (is_hop_by_hop h.0)) (h ∷ forwarded hs)
      (forwarded hs)
      (λ e. (inl (is_secret-ne h.0 (ground arith) (ground arith)), forwarded-IsOwn permit hs))
      (λ e. forwarded-IsOwn permit hs)

key_headers-IsOwn :
    (permit : Permit) (fwd : List (Text × Text)) → All (IsOwn permit) (key_headers permit fwd)
unfolding key_headers IsOwn
key_headers-IsOwn permit fwd = go permit.protocol
  where
    go :
        (p : Protocol)
        → All (IsOwn permit) (elim p as (λ _. List (Text × Text)) [
          | open_ai ↦ (codes "authorization", codes "Bearer " ++ permit.key) ∷ []
          | anthropic ↦
              (codes "x-api-key", permit.key)
              ∷ (if any (λ (h : Text × Text). same h.0 (codes "anthropic-version")) fwd
                  then []
                  else (codes "anthropic-version", anthropic_version) ∷ [])
        ])
    go open_ai = (inr (inr refl), tt)
    go anthropic = (
      inr (inl refl),
      on_if (All (IsOwn permit))
          (any (λ (h : Text × Text). same h.0 (codes "anthropic-version")) fwd) []
          ((codes "anthropic-version", anthropic_version) ∷ []) (λ e. tt)
          (λ e. (
            inl (
                is_secret-ne (codes "anthropic-version") (unfold is_secret same in refl)
                  (unfold is_hop_by_hop is_one_of any same in refl)),
            tt,
          )),
    )

-- Whatever headers its client sent, a request to a provider has no `authorization`, `x-api-key` or
-- `proxy-authorization` header but one with the key of the lane that carries it.
pub build_request-IsOwn :
    (permit : Permit) (path_query : Text) (headers : List (Text × Text)) (body : Text)
    → All (IsOwn permit) (build_request permit path_query (forwarded headers) body).headers
unfolding build_request
build_request-IsOwn permit path_query headers body =
    All-append (IsOwn permit) (forwarded headers) (key_headers permit (forwarded headers))
      (forwarded-IsOwn permit headers) (key_headers-IsOwn permit (forwarded headers))
