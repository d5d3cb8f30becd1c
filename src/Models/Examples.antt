-- ===== src/Models/Examples.antt =====
-- The theorem on the merged catalog at two providers that share a model.
use llm_rate_limit_proxy.Base.{◌≡◌, List, [], ◌∷◌, none, some, Text, codes, refl, map, All, In}
use llm_rate_limit_proxy.Config.{Alias}
use llm_rate_limit_proxy.Json.{Json}
use llm_rate_limit_proxy.Models.Merge.{Distinct, IsListed, id_of, flatten, merge, merge-IsListed}

-- A value is its id.
abbrev ids : Json Text
ids = record {
  parse = λ b. none;
  field = λ key v. some v;
  as_array = λ v. none;
  as_str = λ v. some v;
  as_u64 = λ v. none;
  as_bool = λ v. none;
}

abbrev catalogs : List (List Text)
catalogs = (codes "m" ∷ codes "n" ∷ []) ∷ (codes "m" ∷ codes "fast" ∷ []) ∷ []

abbrev fast : List Alias
fast = record { name = codes "fast"; targets = [] } ∷ []

merge-IsListed_example :
    Distinct ids (λ a. a) (λ n v. v) (merge ids (λ a. a) (λ n v. v) catalogs fast []).0
    × (map (id_of ids) (merge ids (λ a. a) (λ n v. v) catalogs fast []).1
        ≡ map some (merge ids (λ a. a) (λ n v. v) catalogs fast []).0)
    × All (λ (a : Alias). In a.name (merge ids (λ a. a) (λ n v. v) catalogs fast []).0) fast
    × All
        (λ v.
          IsListed ids
            (λ a. a)
            (λ n v. v)
            (merge ids (λ a. a) (λ n v. v) catalogs fast []).0
            (id_of ids v))
        (flatten ids (λ a. a) (λ n v. v) catalogs)
merge-IsListed_example =
    merge-IsListed ids (λ a. a) (λ n v. v)
      (record { id_of-alias_entry = λ name. refl; id_of-with_ceiling = λ n v. refl }) catalogs fast
      []
