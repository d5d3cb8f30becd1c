-- ===== src/Proxy/Bodies.antt =====
-- What src/proxy.rs reads in a request's body, and how it rewrites it. What is built of JSON is a parameter.
use llm_rate_limit_proxy.Base.{
  ℕ, ◌≤◌, ◌≡◌, refl, ap, arith, Bool, false, List, [], ◌∷◌, ◌++◌, Option, none, some, Text, codes,
  map, length, take, unwrap_or, and_then,
}
use llm_rate_limit_proxy.Base.{take}
use llm_rate_limit_proxy.Json.{Json, str_at, array_at}

-- Of the libraries, on JSON values: the hasher over the model and the first messages, the print of a value, a
-- hundred times the temperature, and the body with `stream_options` or with another `model`, which only an
-- object has.
pub record Rewriting (V : Type 0) : Type 0 where
  pub hash : Text → List Text → ℕ
  pub to_text : V → Text
  pub temp_x100 : V → ℕ
  pub include_usage : V → Option Text
  pub with_model : Text → V → Option Text

module _ {V : Type 0} (j : Json V) (rw' : Rewriting V) where
  unfoldable pub requested_model : V → Option Text
  requested_model body = str_at j (codes "model") body

  -- The hash of the head of the conversation.
  unfoldable pub session_key : V → Option ℕ
  session_key body = and_then (array_at j (codes "messages") body) (λ messages.
      some (
        rw'.hash (unwrap_or (str_at j (codes "model") body) [])
          (map rw'.to_text (take 2 messages))))

  unfoldable pub wants_stream : V → Bool
  wants_stream body = unwrap_or (and_then (j.field (codes "stream") body) j.as_bool) false

  unfoldable pub inject_usage : V → Option Text
  inject_usage body = elim (j.field (codes "stream_options") body) [
    | some _ ↦ none
    | none ↦ rw'.include_usage body
  ]

  unfoldable pub rewrite_model : Text → Option Text → Text
  rewrite_model body none = body
  rewrite_model body (some model) = unwrap_or (and_then (j.parse body) (rw'.with_model model)) body

  take_two-append : (xs ys : List V) → 2 ≤ length xs → take 2 (xs ++ ys) ≡ take 2 xs
  take_two-append [] ys h = absurd (omega arith)
  take_two-append (x ∷ []) ys h = absurd (omega arith)
  take_two-append (x ∷ y ∷ xs) ys h = refl

  -- A conversation keeps its session as it grows: with the same model, a body whose messages go on from those of an
  -- earlier one, which had two at least, has the same session.
  pub session_key-grows :
      (body body' : V) (messages more : List V)
      → array_at j (codes "messages") body ≡ some messages
      → array_at j (codes "messages") body' ≡ some (messages ++ more)
      → str_at j (codes "model") body' ≡ str_at j (codes "model") body
      → 2 ≤ length messages
      → session_key body' ≡ session_key body
  unfolding session_key
  session_key-grows body body' messages more e e' m h =
      rw (e, e', m)
        (ap
          (λ (ms : List V).
            some (rw'.hash (unwrap_or (str_at j (codes "model") body) []) (map rw'.to_text ms)))
          (take_two-append messages more h))
