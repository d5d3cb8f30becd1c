-- ===== src/Models.antt =====
-- src/models.rs: the learned context ceilings and the cache of catalogs. A catalog's entries are JSON, so
-- their type is a parameter. Times are milliseconds.
pub mod Merge
mod Examples
use llm_rate_limit_proxy.Base.{
  ℕ, ◌-◌, ◌*◌, List, [], ◌∷◌, Option, none, some, Text, ltb, if◌then◌else◌, min, unwrap_or,
}
use llm_rate_limit_proxy.Base.Assoc.{get, insert}

abbrev pub Limits : Type 0
Limits = List (Text × ℕ)

-- The smallest ceiling seen is kept.
unfoldable pub learn : Text → ℕ → Limits → Limits
learn model tokens limits = insert model (min (unwrap_or (get model limits) tokens) tokens) limits

unfoldable pub ceiling_of : Text → Limits → Option ℕ
ceiling_of model limits = get model limits

unfoldable pub smallest : Limits → Option ℕ
smallest [] = none
smallest ((model, n) ∷ rest) = elim (smallest rest) [ none ↦ some n | some k ↦ some (min n k) ]

pub record Entry (V : Type 0) : Type 0 where
  pub fetched : ℕ
  pub models : List V

pub record Catalog (V : Type 0) : Type 0 where
  pub ttl_secs : ℕ
  pub entries : List (Text × Entry V)

module _ {V : Type 0} where
  unfoldable pub new : ℕ → Catalog V
  new ttl_secs = record { ttl_secs = ttl_secs; entries = [] }

  unfoldable pub set_ttl_secs : ℕ → Catalog V → Catalog V
  set_ttl_secs secs c = record c { ttl_secs = secs }

  unfoldable pub fresh : Text → ℕ → Catalog V → Option (List V)
  fresh provider now c = elim (get provider c.entries) [
    | none ↦ none
    | some e ↦ if ltb (now - e.fetched) (c.ttl_secs * 1000) then some e.models else none
  ]

  unfoldable pub stale : Text → Catalog V → Option (List V)
  stale provider c = elim (get provider c.entries) [ none ↦ none | some e ↦ some e.models ]

  unfoldable pub put : Text → List V → ℕ → Catalog V → Catalog V
  put provider models now c = record c {
    entries = insert provider (record { fetched = now; models = models }) c.entries;
  }
