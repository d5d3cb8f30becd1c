-- ===== src/Proxy/Harvest.antt =====
-- `harvest` of src/proxy.rs: the measurements that a response carries about itself.
use llm_rate_limit_proxy.Base.{
  ℕ, ◌≡◌, refl, ◌∙◌, arith, Bool, List, [], ◌∷◌, Option, none, some, Text, codes, ltb, ◌==◌,
  if◌then◌else◌, ◌&&◌, ◌||◌, length, unwrap_or, and_then, or_option, map_or, is_some_and, count_if,
  same,
}
use llm_rate_limit_proxy.Json.{Json, nested, str_at, number_at, array_at}
use llm_rate_limit_proxy.Metrics.{Metrics, record_tokens, record_speed, record_extras}
use llm_rate_limit_proxy.Metrics.Requests.{record_finish}

module _ {V : Type 0} (j : Json V) where
  -- Either protocol's names for the two counts.
  unfoldable pub token_counts : V → ℕ × ℕ
  token_counts u =
      let p = number_at j (codes "prompt_tokens") u in
      let c = number_at j (codes "completion_tokens") u in
      if (p == 0) && (c == 0)
      then (number_at j (codes "input_tokens") u, number_at j (codes "output_tokens") u)
      else (p, c)

  unfoldable pub reasoning_tokens : V → ℕ
  reasoning_tokens u =
      unwrap_or
        (and_then (nested j (codes "completion_tokens_details") (codes "reasoning_tokens") u)
          j.as_u64)
        0

  unfoldable pub harvest_usage : Text → ℕ → Option V → Metrics → Metrics
  unfolding token_counts reasoning_tokens
  harvest_usage model gen_ms none m = m
  harvest_usage model gen_ms (some u) m =
      let pc = token_counts u in
      let counted = if ltb 0 pc.0 || ltb 0 pc.1 then record_tokens model pc.0 pc.1 m else m in
      let timed = if ltb 0 pc.1 then record_speed model pc.1 gen_ms counted else counted in
      let reasoning = reasoning_tokens u in
      if ltb 0 reasoning then record_extras model 0 reasoning timed else timed

  abbrev pub finish_with : Text → Option Text → Metrics → Metrics
  finish_with model reason m = map_or reason m (λ r. record_finish model r m)

  abbrev pub calls_with : Text → ℕ → Metrics → Metrics
  calls_with model calls m = if ltb 0 calls then record_extras model calls 0 m else m

  abbrev pub is_tool_use : V → Bool
  is_tool_use b = is_some_and (str_at j (codes "type") b) (λ t. same t (codes "tool_use"))

  unfoldable pub harvest_choices : Text → List V → Metrics → Metrics
  harvest_choices model [] m = m
  harvest_choices model (ch ∷ chs) m = harvest_choices model chs (
      calls_with model
        (map_or (and_then (nested j (codes "message") (codes "tool_calls") ch) j.as_array) 0 length)
        (finish_with model (str_at j (codes "finish_reason") ch) m))

  unfoldable pub harvest : Text → ℕ → V → Metrics → Metrics
  unfolding harvest_usage harvest_choices
  harvest model gen_ms v m =
      let usage =
        or_option (j.field (codes "usage") v) (nested j (codes "message") (codes "usage") v) in
      let reason =
        and_then
          (or_option (j.field (codes "stop_reason") v)
            (nested j (codes "delta") (codes "stop_reason") v))
          j.as_str in
      let m1 = finish_with model reason (harvest_usage model gen_ms usage m) in
      let m2 =
        map_or (array_at j (codes "content") v) m1
          (λ blocks. calls_with model (count_if is_tool_use blocks) m1) in
      map_or (array_at j (codes "choices") v) m2 (λ choices. harvest_choices model choices m2)

  -- `harvest` counts no request.
  calls_with-requests :
      (model : Text) (n : ℕ) (m : Metrics) → (calls_with model n m).requests ≡ m.requests
  unfolding record_extras
  calls_with-requests model n m = ground arith

  finish_with-requests :
      (model : Text) (r : Option Text) (m : Metrics) → (finish_with model r m).requests ≡ m.requests
  unfolding record_finish
  finish_with-requests model r m = ground arith

  harvest_usage-requests :
      (model : Text) (gen_ms : ℕ) (u : Option V) (m : Metrics)
      → (harvest_usage model gen_ms u m).requests ≡ m.requests
  unfolding harvest_usage record_tokens record_speed record_extras
  harvest_usage-requests model gen_ms none m = refl
  harvest_usage-requests model gen_ms (some u) m = ground arith

  harvest_choices-requests :
      (model : Text) (chs : List V) (m : Metrics)
      → (harvest_choices model chs m).requests ≡ m.requests
  unfolding harvest_choices
  harvest_choices-requests model [] m = refl
  harvest_choices-requests model (ch ∷ chs) m =
      harvest_choices-requests model chs _
      ∙ calls_with-requests model _ _
      ∙ finish_with-requests model _ m

  map_or-requests :
      (o : Option (List V)) (m : Metrics) (f : List V → Metrics)
      → ((xs : List V) → (f xs).requests ≡ m.requests)
      → (map_or o m f).requests ≡ m.requests
  map_or-requests none m f h = refl
  map_or-requests (some xs) m f h = h xs

  pub harvest-requests :
      (model : Text) (gen_ms : ℕ) (v : V) (m : Metrics)
      → (harvest model gen_ms v m).requests ≡ m.requests
  unfolding harvest
  harvest-requests model gen_ms v m =
      map_or-requests (array_at j (codes "choices") v) _ _
        (λ choices. harvest_choices-requests model choices _)
      ∙ map_or-requests (array_at j (codes "content") v) _ _
          (λ blocks. calls_with-requests model (count_if is_tool_use blocks) _)
      ∙ finish_with-requests model _ _
      ∙ harvest_usage-requests model gen_ms _ m
