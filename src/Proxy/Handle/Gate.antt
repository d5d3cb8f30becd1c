-- ===== src/Proxy/Handle/Gate.antt =====
-- Which requests get past the head of `handle` in src/proxy.rs.
use llm_rate_limit_proxy.Base.{
  ℕ, ◌+◌, ◌<◌, ◌≡◌, refl, sym, subst, arith, false, List, Option, none, some, Text, codes, leb,
  is_empty, and_then, or_option, find, same, same_iff, In, strip_prefix, strip_prefix-eq-some, ◌++◌,
  ◌⊎◌, inl, inr, ap, ◌∙◌, on_if, on_option,
}
use llm_rate_limit_proxy.Base.Assoc.{get}
use llm_rate_limit_proxy.Base.{find-In, find-holds}
use llm_rate_limit_proxy.Config.{ClientKey}
use llm_rate_limit_proxy.Json.{Json}
use llm_rate_limit_proxy.Auth.{verify_client_key}
use llm_rate_limit_proxy.Proxy.Bodies.{Rewriting}
use llm_rate_limit_proxy.Proxy.Shared.{Reply, refused, no_capacity}
use llm_rate_limit_proxy.Proxy.Handle.{
  Incoming, Front, Job, Start, turned_away, forwards, client_of, job_of, count_job, route_request,
  handle,
}

-- The secret that the headers present: behind `Bearer`, or else in `x-api-key`.
abbrev pub IsPresented : List (Text × Text) → Text → Type 0
IsPresented headers secret =
    (get (codes "authorization") headers ≡ some (codes "Bearer " ++ secret))
    ⊎ (get (codes "x-api-key") headers ≡ some secret)

-- A request whose headers present a secret with the digest that the configuration keeps for `label`.
pub record IsKnown (sha256_hex : Text → Text) (headers : List (Text × Text))
    (clients : List ClientKey) (label : Text) : Type 0 where
  pub key : ClientKey
  pub secret : Text
  pub presented : IsPresented headers secret
  pub found : In key clients
  pub matching : sha256_hex secret ≡ key.digest
  pub named : label ≡ key.label

module _ {V : Type 0} (j : Json V) (rw' : Rewriting V) (sha256_hex : Text → Text) where
  verify-IsKnown :
      (headers : List (Text × Text)) (secret : Text) (clients : List ClientKey) {label : Text}
      → IsPresented headers secret
      → verify_client_key sha256_hex secret clients ≡ some label
      → IsKnown sha256_hex headers clients label
  unfolding verify_client_key
  verify-IsKnown headers secret clients {label} sent h =
      go (find (λ (k : ClientKey). same (sha256_hex secret) k.digest) clients) refl h
    where
      go :
          (o : Option ClientKey)
          → find (λ (k : ClientKey). same (sha256_hex secret) k.digest) clients ≡ o
          → (elim o as (λ _. Option Text) [ none ↦ none | some k ↦ some k.label ]) ≡ some label
          → IsKnown sha256_hex headers clients label
      go none e x = absurd (ground arith)
      go (some k) e x = record {
        key = k;
        secret = secret;
        presented = sent;
        found = find-In (λ (k : ClientKey). same (sha256_hex secret) k.digest) clients e;
        matching =
            (same_iff (sha256_hex secret) k.digest).0
              (find-holds (λ (k : ClientKey). same (sha256_hex secret) k.digest) clients e);
        named = ground arith;
      }

  client_of-IsKnown :
      (headers : List (Text × Text)) (clients : List ClientKey) {label : Text}
      → client_of j rw' sha256_hex headers clients ≡ some label
      → IsKnown sha256_hex headers clients label
  unfolding client_of
  client_of-IsKnown headers clients {label} h =
      go
        (or_option (and_then (get (codes "authorization") headers) (strip_prefix (codes "Bearer ")))
          (get (codes "x-api-key") headers))
        (λ secret e. presented (get (codes "authorization") headers) refl secret e) h
    where
      pick :
          (value secret : Text)
          → get (codes "authorization") headers ≡ some value
          → (o : Option Text) → strip_prefix (codes "Bearer ") value ≡ o
          → or_option o (get (codes "x-api-key") headers) ≡ some secret
          → IsPresented headers secret
      pick value secret found none b x = inr (ground arith)
      pick value secret found (some rest) b x = inl (
          found
          ∙ ap some (strip_prefix-eq-some (codes "Bearer ") value {t = secret} (b ∙ ground arith)))

      presented :
          (o : Option Text)
          → get (codes "authorization") headers ≡ o
          → (secret : Text)
          → or_option
              (and_then o (strip_prefix (codes "Bearer ")))
              (get (codes "x-api-key") headers)
            ≡ some secret
          → IsPresented headers secret
      presented none found secret e = inr (ground arith)
      presented (some value) found secret e =
          pick value secret found (strip_prefix (codes "Bearer ") value) refl e

      go :
          (o : Option Text)
          → ((secret : Text) → o ≡ some secret → IsPresented headers secret)
          → and_then o (λ secret. verify_client_key sha256_hex secret clients) ≡ some label
          → IsKnown sha256_hex headers clients label
      go none s e = absurd (ground arith)
      go (some secret) s e = verify-IsKnown headers secret clients (s secret refl) e

  route_request-forwards :
      (now : ℕ) (inc : Incoming) (client : Text) (s : Front) {job : Job}
      → (route_request j rw' sha256_hex now inc client s).1 ≡ forwards job
      → (job.request.client ≡ client)
        × ((route_request j rw' sha256_hex now inc client s).0.inflight ≡ s.inflight)
  unfolding route_request job_of count_job
  route_request-forwards now inc client s h = (ground arith, ground arith)

  unfoldable Passes : Incoming → Front → Job → Front × Start → Type 0
  Passes inc s job x =
      x.1 ≡ forwards job
      → (s.setup_required ≡ false)
        × IsKnown sha256_hex inc.headers s.clients job.request.client
        × (is_empty s.app.pool.lanes ≡ false)
        × (s.inflight < s.max_inflight)
        × (x.0.inflight ≡ s.inflight + 1)

  refusal-Passes :
      (inc : Incoming) (s s' : Front) (job : Job) (r : Reply) → Passes inc s job (s', turned_away r)
  unfolding Passes
  refusal-Passes inc s s' job r h = absurd (ground arith)

  handle-Passes :
      (now : ℕ) (inc : Incoming) (s : Front) (job : Job)
      → Passes inc s job (handle j rw' sha256_hex now inc s)
  unfolding handle
  handle-Passes now inc s job =
      let s' = record s { inflight = s.inflight + 1 } in
      on_if (Passes inc s job) s.setup_required _ _
        (λ e. refusal-Passes inc s s job (refused 503 (codes "setup_required")))
        (λ open'.
          on_option (Passes inc s job) (client_of j rw' sha256_hex inc.headers s.clients) _ _
            (λ e. refusal-Passes inc s _ job (refused 401 (codes "unauthorized")))
            (λ client known.
              on_if (Passes inc s job) (is_empty s.app.pool.lanes) _ _
                (λ e. refusal-Passes inc s s job no_capacity)
                (λ lanes.
                  on_if (Passes inc s job) (leb s.max_inflight s.inflight) _
                    (route_request j rw' sha256_hex now inc client s')
                    (λ e. refusal-Passes inc s _ job (refused 503 (codes "overloaded")))
                    (λ room. admitted client open' known lanes room))))
    where
      admitted :
          (client : Text)
          → s.setup_required ≡ false
          → client_of j rw' sha256_hex inc.headers s.clients ≡ some client
          → is_empty s.app.pool.lanes ≡ false
          → leb s.max_inflight s.inflight ≡ false
          → Passes inc s job (
              route_request j rw' sha256_hex now inc client
                (record s { inflight = s.inflight + 1 }))
      admitted client open' known lanes room =
          unfold Passes in
          λ h.
            let (same_client, held) =
              route_request-forwards now inc client (record s { inflight = s.inflight + 1 }) h in
            (
              open',
              subst (IsKnown sha256_hex inc.headers s.clients) (sym same_client)
                  (client_of-IsKnown inc.headers s.clients known),
              lanes,
              ground (arith, room),
              held,
            )

  -- A request is forwarded only if the setup is done, its `Bearer` token or its `x-api-key` is a secret whose digest
  -- the configuration keeps, under whose label it is counted, the pool has a lane, and fewer requests than the limit are in flight; it
  -- is then one of them.
  pub handle-IsKnown :
      (now : ℕ) (inc : Incoming) (s : Front) (job : Job)
      → (handle j rw' sha256_hex now inc s).1 ≡ forwards job
      → (s.setup_required ≡ false)
        × IsKnown sha256_hex inc.headers s.clients job.request.client
        × (is_empty s.app.pool.lanes ≡ false)
        × (s.inflight < s.max_inflight)
        × ((handle j rw' sha256_hex now inc s).0.inflight ≡ s.inflight + 1)
  handle-IsKnown now inc s job h = unfold Passes in handle-Passes now inc s job h
