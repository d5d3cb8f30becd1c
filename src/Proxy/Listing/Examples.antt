-- ===== src/Proxy/Listing/Examples.antt =====
-- The list of models with its one provider out of reach and the copy of its catalog expired.
use llm_rate_limit_proxy.Base.{same, ℕ, ◌≡◌, ◌∷◌, [], List, none, some, Text, codes, All, refl}
use llm_rate_limit_proxy.Base.Assoc.{get}
use llm_rate_limit_proxy.Json.{Json}
use llm_rate_limit_proxy.Models.{Catalog, stale}
use llm_rate_limit_proxy.Models.Merge.{merge}
use llm_rate_limit_proxy.Pool.Lanes.{with_window}
use llm_rate_limit_proxy.Proxy.Listing.{Errand, unreachable, Shelf, read_response, serve_catalog}
use llm_rate_limit_proxy.Proxy.Listing.Outage.{
  IsSeen, Comes, IsCopy, AllListed, serve_catalog-AllListed,
}

-- A value is its id.
abbrev ids : Json Text
ids = record {
  parse = λ b. none;
  field = λ key v. some v;
  as_array = λ v. none;
  as_str = λ v. some v;
  as_u64 = λ v. none;
  as_bool = λ v. none;
}

abbrev no_hash : ℕ → Text → Text → ℕ
no_hash _ _ _ = 0

abbrev expired : Catalog Text
expired = record {
  ttl_secs = 10;
  entries =
      (codes "nim", record { fetched = 0; models = codes "m" ∷ [] })
      ∷ (codes "lab", record { fetched = 15000; models = codes "n" ∷ [] })
      ∷ [];
}

-- There is no lane to ask for a new copy.
abbrev shelf : Shelf Text
shelf = record { catalog = expired; pool = with_window [] 60000 }

abbrev errand : Errand
errand = record {
  looked_at = 20000;
  rounds = record { now = 20000; meanwhile = λ p. p } ∷ [];
  response = unreachable;
  kept_at = 20000;
}

abbrev errands : List (Text × Errand)
errands = (codes "nim", errand) ∷ (codes "lab", errand) ∷ []

errands-IsSeen : All (λ (e : Text × Errand). IsSeen expired e.0) errands
unfolding stale get same
errands-IsSeen = ((codes "m" ∷ [], refl), ((codes "n" ∷ [], refl), tt))

errands-Comes : All (Comes ids no_hash) errands
unfolding read_response
errands-Comes = ((none, refl), ((none, refl), tt))

serve_catalog-AllListed_example :
    (catalogs : List (List Text)) × ((serve_catalog ids no_hash
        (λ a. a)
        (λ n v. v)
        (some 50000)
        errands
        []
        []
        shelf).1
      ≡ some (merge ids (λ a. a) (λ n v. v) catalogs [] []))
    × AllListed ids no_hash (IsCopy ids no_hash errands shelf) errands catalogs
serve_catalog-AllListed_example =
    serve_catalog-AllListed ids no_hash (λ a. a) (λ n v. v) (some 50000) errands [] [] shelf refl
      errands-Comes errands-IsSeen
