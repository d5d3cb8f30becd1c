-- ===== src/Proxy/Relay.antt =====
-- `parse_context_limit`, `is_empty_completion` and `relay` of src/proxy.rs.
use llm_rate_limit_proxy.Base.{
  ℕ, refl, ◌^◌, ◌≡◌, ap, ◌∙◌, arith, Bool, List, [], ◌∷◌, Option, none, some, Text, codes, ltb, leb,
  if◌then◌else◌, ◌&&◌, is_empty, and_then, or_option, map_or, is_some_and, same, strip_prefix,
  on_if, on_option,
}
use llm_rate_limit_proxy.Json.{Json, str_at, array_at}
use llm_rate_limit_proxy.Net.{parse_below, is_digit}
use llm_rate_limit_proxy.Models.{learn}
use llm_rate_limit_proxy.Metrics.{Metrics}
use llm_rate_limit_proxy.Proxy.Shared.{
  AppState, Upstream, Reply, passed, empty_completion, set_metrics,
}
use llm_rate_limit_proxy.Proxy.Harvest.{harvest, harvest-requests}

abbrev pub marker : Text
marker = codes "maximum context length is "

-- What follows the first occurrence of `pattern`.
unfoldable pub after : Text → Text → Option Text
after pattern [] = strip_prefix pattern []
after pattern (c ∷ s) = or_option (strip_prefix pattern (c ∷ s)) (after pattern s)

unfoldable pub take_while {ℓ} : {A : Type ℓ} → (A → Bool) → List A → List A
take_while p [] = []
take_while p (x ∷ xs) = if p x then x ∷ take_while p xs else []

unfoldable pub parse_context_limit : Text → Option ℕ
unfolding after take_while
parse_context_limit body =
    and_then (after marker body) (λ rest. parse_below (2 ^ 64) (take_while is_digit rest))

-- `from_u16`, or 502; and `is_success`.
unfoldable pub status_code : ℕ → ℕ
status_code n = if leb 100 n && ltb n 1000 then n else 502

unfoldable pub is_success : ℕ → Bool
is_success n = leb 200 n && ltb n 300

-- `utf8` is `str::from_utf8`.
module _ {V : Type 0} (j : Json V) (utf8 : Text → Option Text) where
  unfoldable pub is_empty_completion : V → Bool
  is_empty_completion v =
      is_some_and (str_at j (codes "object") v) (λ o. same o (codes "chat.completion"))
      && is_some_and (array_at j (codes "choices") v) is_empty

  unfoldable pub learn_ceiling : Text → ℕ → Text → AppState → AppState
  unfolding parse_context_limit
  learn_ceiling model status payload s =
      if is_success (status_code status)
      then s
      else map_or (and_then (utf8 payload) parse_context_limit) s
          (λ n. record s { context_limits = learn model n s.context_limits })

  -- With the whole body.
  unfoldable pub relay_body : Text → ℕ → Upstream → Text → AppState → AppState × Reply
  unfolding learn_ceiling is_empty_completion status_code
  relay_body model gen_ms up payload s =
      let s' = learn_ceiling model up.status payload s in
      let as_is = passed (status_code up.status) up.content_type payload in
      elim (j.parse payload) [
        | none ↦ (s', as_is)
        | some v ↦
            if is_success (status_code up.status) && is_empty_completion v
            then (s', empty_completion)
            else (set_metrics (harvest j model gen_ms v) s', as_is)
      ]

  -- No deadline ends the wait for the body: without its end there is no answer.
  unfoldable pub relay : Text → ℕ → Upstream → AppState → AppState × Option Reply
  unfolding relay_body
  relay model gen_ms up s = elim up.payload [
    | none ↦ (s, none)
    | some payload ↦ let told = relay_body model gen_ms up payload s in (told.0, some told.1)
  ]

-- What `relay` keeps of the shared state.
pub record Keeps (s s' : AppState) : Type 0 where
  pub governor : s'.governor ≡ s.governor
  pub pool : s'.pool ≡ s.pool
  pub requests : s'.metrics.requests ≡ s.metrics.requests

module _ {V : Type 0} (j : Json V) (utf8 : Text → Option Text) where
  learn_ceiling-keeps :
      (model : Text) (status : ℕ) (payload : Text) (s : AppState)
      → ((learn_ceiling j utf8 model status payload s).governor ≡ s.governor)
        × ((learn_ceiling j utf8 model status payload s).pool ≡ s.pool)
        × ((learn_ceiling j utf8 model status payload s).metrics ≡ s.metrics)
  unfolding learn_ceiling
  learn_ceiling-keeps model status payload s = (ground arith, ground arith, ground arith)

  relay_body-Keeps :
      (model : Text) (gen_ms : ℕ) (up : Upstream) (payload : Text) (s : AppState)
      → Keeps s (relay_body j utf8 model gen_ms up payload s).0
  unfolding relay_body
  relay_body-Keeps model gen_ms up payload s =
      let s' = learn_ceiling j utf8 model up.status payload s in
      let as_is = passed (status_code up.status) up.content_type payload in
      let (g, p, m) = learn_ceiling-keeps model up.status payload s in
      let same_requests = ap (λ (x : Metrics). x.requests) m in
      on_option (λ (x : AppState × Reply). Keeps s x.0) (j.parse payload) (s', as_is) _
        (λ e. record { governor = g; pool = p; requests = same_requests })
        (λ v e.
          on_if (λ (x : AppState × Reply). Keeps s x.0)
            (is_success (status_code up.status) && is_empty_completion j utf8 v)
            (s', empty_completion) (set_metrics (harvest j model gen_ms v) s', as_is)
            (λ h. record { governor = g; pool = p; requests = same_requests })
            (λ h. record {
              governor = g;
              pool = p;
              requests = harvest-requests j model gen_ms v s'.metrics ∙ same_requests;
            }))

  pub relay-Keeps :
      (model : Text) (gen_ms : ℕ) (up : Upstream) (s : AppState)
      → Keeps s (relay j utf8 model gen_ms up s).0
  unfolding relay
  relay-Keeps model gen_ms up s =
      on_option (λ (x : AppState × Option Reply). Keeps s x.0) up.payload _ _
        (λ e. record { governor = refl; pool = refl; requests = refl })
        (λ payload e. relay_body-Keeps model gen_ms up payload s)
