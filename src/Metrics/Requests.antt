-- ===== src/Metrics/Requests.antt =====
-- The counters of src/metrics.rs whose keys are tuples: `record_request` and `record_finish`.
use llm_rate_limit_proxy.Base.{
  ℕ, suc, ◌+◌, ◌≤◌, ◌≡◌, arith, Bool, not, List, [], ◌∷◌, Text, codes, leb, if◌then◌else◌, ◌&&◌,
  length, any, same,
}
use llm_rate_limit_proxy.Metrics.{max_series, sanitize, Series, Metrics}

-- `*entry(key).or_insert(0) += 1` and `contains_key`, on keys that `same_key` compares.
module _ {K : Type 0} (same_key : K → K → Bool) where
  unfoldable pub plus_one : K → List (K × ℕ) → List (K × ℕ)
  plus_one k [] = (k, 1) ∷ []
  plus_one k ((j, n) ∷ m) = if same_key j k then (j, suc n) ∷ m else (j, n) ∷ plus_one k m

  unfoldable pub has : K → List (K × ℕ) → Bool
  has k m = any (λ (e : K × ℕ). same_key e.0 k) m

-- `values().sum()`.
unfoldable pub total_of {ℓ} : {K : Type ℓ} → List (K × ℕ) → ℕ
total_of [] = 0
total_of (e ∷ m) = e.1 + total_of m

unfoldable pub same_series : Series → Series → Bool
same_series a b = same a.client b.client && (same a.model b.model && same a.status b.status)

unfoldable pub same_pair : Text × Text → Text × Text → Bool
same_pair a b = same a.0 b.0 && same a.1 b.1

unfoldable pub record_request : Text → Text → Text → Metrics → Metrics
unfolding plus_one has same_series
record_request client model status m =
    let key : Series = record {
      client = sanitize client;
      model = sanitize model;
      status = sanitize status;
    } in
    if not (has same_series key m.requests) && leb max_series (length m.requests)
    then record m {
      requests = plus_one same_series (record key { model = codes "other" }) m.requests;
    }
    else record m { requests = plus_one same_series key m.requests }

unfoldable pub record_finish : Text → Text → Metrics → Metrics
unfolding plus_one has same_pair
record_finish model reason m =
    let key : Text × Text = (sanitize model, sanitize reason) in
    if not (has same_pair key m.finish) && leb max_series (length m.finish)
    then m
    else record m { finish = plus_one same_pair key m.finish }

unfoldable pub total : Metrics → ℕ
unfolding total_of
total m = total_of m.requests

total_of-plus_one :
    {K : Type 0} (same_key : K → K → Bool) (k : K) (m : List (K × ℕ))
    → total_of (plus_one same_key k m) ≡ suc (total_of m)
unfolding plus_one total_of
total_of-plus_one same_key k [] = omega arith
total_of-plus_one same_key k (e ∷ m) = ground (arith, total_of-plus_one same_key k m)

-- Whatever the labels are and however many series there are, a recorded request counts once.
pub total-record_request :
    (client model status : Text) (m : Metrics)
    → total (record_request client model status m) ≡ suc (total m)
unfolding record_request total
total-record_request client model status m =
    let key : Series = record {
      client = sanitize client;
      model = sanitize model;
      status = sanitize status;
    } in
    ground (
      arith,
      total_of-plus_one same_series key m.requests,
      total_of-plus_one same_series (record key { model = codes "other" }) m.requests,
    )

length-plus_one :
    {K : Type 0} (same_key : K → K → Bool) (k : K) (m : List (K × ℕ))
    → length (plus_one same_key k m) ≡ (if has same_key k m then length m else suc (length m))
unfolding plus_one has any
length-plus_one same_key k [] = omega arith
length-plus_one same_key k (e ∷ m) = ground (arith, length-plus_one same_key k m)

-- The map of the reasons for which generations stopped never outgrows the cap on series.
pub record_finish-le-cap :
    (model reason : Text) (m : Metrics)
    → length m.finish ≤ max_series
    → length (record_finish model reason m).finish ≤ max_series
unfolding record_finish
record_finish-le-cap model reason m h =
    ground (arith, length-plus_one same_pair (sanitize model, sanitize reason) m.finish)
