-- ===== src/Proxy/Listing.antt =====
-- `serve_catalog` and `fetch_catalog` of src/proxy.rs: the merged catalog, with each provider's copy renewed once
-- it has expired.
pub mod Outage
mod Examples
use llm_rate_limit_proxy.Base.{
  ℕ, ◌≡◌, refl, ap, List, [], ◌∷◌, ◌++◌, Option, none, some, Text, if◌then◌else◌, unwrap_or,
  and_then, map_or, on_option,
}
use llm_rate_limit_proxy.Config.{Alias}
use llm_rate_limit_proxy.Json.{Json}
use llm_rate_limit_proxy.Models
use llm_rate_limit_proxy.Models.{Entry, Catalog, Limits, stale, put}
use llm_rate_limit_proxy.Models.Merge.{extract, merge}
use llm_rate_limit_proxy.Pool.Lanes.{Pool}
use llm_rate_limit_proxy.Dispatch
use llm_rate_limit_proxy.Dispatch.{Query, Round, Answer, done, acquire_for}
use llm_rate_limit_proxy.Proxy.Relay.{is_success}

-- What comes of the request to a provider: no response or a body that breaks off, a status and a whole body, or a
-- response or a body that never ends, which no deadline covers.
pub data Exchange : Type 0 where
  unreachable stalls : Exchange
  responds : ℕ → Text → Exchange

-- What happens for one provider: when its copy is looked at, the rounds of the wait for a lane, what comes of the
-- request, and when the new copy is kept.
pub record Errand : Type 0 where
  pub looked_at : ℕ
  pub rounds : List Round
  pub response : Exchange
  pub kept_at : ℕ

pub record Shelf (V : Type 0) : Type 0 where
  pub catalog : Catalog V
  pub pool : Pool

abbrev pub query_for : Text → Query
query_for provider = record {
  provider = some provider;
  exclude = [];
  session = none;
  protocol = none;
}

-- `none` while the wait for a lane, or for the provider, goes on.
module _ {V : Type 0} (j : Json V) (hash : ℕ → Text → Text → ℕ) where
  unfoldable pub read_response : Exchange → Option (Option (List V))
  read_response stalls = none
  read_response unreachable = some none
  read_response (responds status body) =
      some (if is_success status then and_then (j.parse body) (λ v. some (extract j v)) else none)

  -- Without a deadline, rounds that run out are a wait that goes on.
  unfoldable pub after_wait : Option ℕ → Answer → Errand → Option (Option (List V))
  unfolding read_response
  after_wait deadline Dispatch.waiting v = map_or deadline none (λ _. some none)
  after_wait deadline (done none) v = some none
  after_wait deadline (done (some permit)) v = read_response v.response

  unfoldable pub fetch_catalog : Option ℕ → Text → Errand → Pool → Pool × Option (Option (List V))
  unfolding after_wait
  fetch_catalog deadline provider v p =
      let got = acquire_for hash (query_for provider) v.rounds p in
      (got.0, after_wait deadline got.1 v)

  -- After a fetch: the new copy, or the last one that was seen, or nothing.
  unfoldable pub renew : Text → Errand → Option (List V) → Catalog V → Catalog V × List (List V)
  renew provider v (some models) c = (put provider models v.kept_at c, models ∷ [])
  renew provider v none c = (c, map_or (stale provider c) [] (λ models. models ∷ []))

  -- One provider: the shelf after it, and its catalog, if it has one.
  unfoldable pub list_provider :
      Option ℕ → Text → Errand → Shelf V → Shelf V × Option (List (List V))
  unfolding fetch_catalog renew
  list_provider deadline provider v s = elim (Models.fresh provider v.looked_at s.catalog) [
    | some cached ↦ (s, some (cached ∷ []))
    | none ↦
        let got = fetch_catalog deadline provider v s.pool in
        elim got.1 [
          | none ↦ (record s { pool = got.0 }, none)
          | some fetched ↦
              let next = renew provider v fetched s.catalog in
              (record { catalog = next.0; pool = got.0 }, some next.1)
        ]
  ]

  unfoldable pub collect :
      Option ℕ → List (Text × Errand) → Shelf V → Shelf V × Option (List (List V))
  unfolding list_provider
  collect deadline [] s = (s, some [])
  collect deadline (e ∷ es) s =
      let here' = list_provider deadline e.0 e.1 s in
      let rest = collect deadline es here'.0 in
      elim here'.1 [
        | none ↦ (here'.0, none)
        | some mine ↦ (rest.0, and_then rest.1 (λ others. some (mine ++ others)))
      ]

  module _ (alias_entry : Text → V) (with_ceiling : ℕ → V → V) where
    unfoldable pub serve_catalog :
        Option ℕ
        → List (Text × Errand)
        → List Alias
        → Limits
        → Shelf V
        → Shelf V × Option (List Text × List V)
    unfolding collect merge
    serve_catalog deadline es aliases limits s =
        let got = collect deadline es s in
        (
          got.0,
          and_then got.1
              (λ catalogs. some (merge j alias_entry with_ceiling catalogs aliases limits)),
        )

  -- A copy that is still fresh is served as it is: the provider is not asked, and no lane gives up a slot.
  list_provider-fresh :
      (deadline : Option ℕ) (provider : Text) (v : Errand) (s : Shelf V) {models : List V}
      → Models.fresh provider v.looked_at s.catalog ≡ some models
      → list_provider deadline provider v s ≡ (s, some (models ∷ []))
  unfolding list_provider
  list_provider-fresh deadline provider v s e = rw (e, list_provider) refl
