-- ===== src/Json.antt =====
-- What the program uses of `serde_json`: a value is a parameter, with the readings that the code makes of it.
use llm_rate_limit_proxy.Base.{ℕ, Bool, List, Option, Text, length, unwrap_or, and_then, map_or}

pub record Json (V : Type 0) : Type 0 where
  -- `from_slice`.
  pub parse : Text → Option V
  -- `get` of a name, `as_array`, `as_str`, `as_u64` and `as_bool`.
  pub field : Text → V → Option V
  pub as_array : V → Option (List V)
  pub as_str : V → Option Text
  pub as_u64 : V → Option ℕ
  pub as_bool : V → Option Bool

module _ {V : Type 0} (j : Json V) where
  -- `v.get(a).and_then(|x| x.get(b))`.
  abbrev pub nested : Text → Text → V → Option V
  nested a b v = and_then (j.field a v) (j.field b)

  abbrev pub str_at : Text → V → Option Text
  str_at key v = and_then (j.field key v) j.as_str

  -- 0 where there is no such number.
  abbrev pub number_at : Text → V → ℕ
  number_at key v = unwrap_or (and_then (j.field key v) j.as_u64) 0

  abbrev pub array_at : Text → V → Option (List V)
  array_at key v = and_then (j.field key v) j.as_array

  -- 0 where there is no such array.
  abbrev pub length_at : Text → V → ℕ
  length_at key v = map_or (array_at key v) 0 length
