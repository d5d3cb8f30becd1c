-- ===== src/Proxy/Stream/Body.antt =====
-- `stream_body` of src/proxy.rs: the response's chunks on their way to the client. Strings are their UTF-8 bytes.
use llm_rate_limit_proxy.Base.{
  ℕ, ◌-◌, Bool, true, false, List, [], ◌∷◌, ◌++◌, Option, none, some, Text, codes, ltb, leb, ◌==◌,
  if◌then◌else◌, ◌&&◌, length, map_or, same, strip_prefix, on_option, lt→ltb, le→leb, ◌-◌, length,
  ◌<◌, ◌≤◌, ◌≡◌, refl, arith, push, drop,
}
use llm_rate_limit_proxy.Config.Urls.{trim}
use llm_rate_limit_proxy.Json.{Json}
use llm_rate_limit_proxy.Metrics.{Metrics, record_event, record_ttft}
use llm_rate_limit_proxy.Proxy.Harvest.{harvest}

-- What the client is sent.
pub data Frame : Type 0 where
  heartbeat : Frame
  sse_error passed_on : Text → Frame

-- One turn of the loop: a chunk, with the time since the request was sent and whether the client is still there,
-- the end, with the time since the first chunk, or a failure.
pub data Event : Type 0 where
  chunk : Text → ℕ → Bool → Event
  closed : ℕ → Event
  broken expired : Event

pub record Flow : Type 0 where
  pub metrics : Metrics
  pub frames : List Frame
  pub first_seen : Bool
  pub tail : Text

-- A byte at which no character begins.
unfoldable pub is_continuation : ℕ → Bool
is_continuation c = leb 128 c && ltb c 192

abbrev pub tail_max : ℕ
tail_max = 8192

abbrev pub tail_kept : ℕ
tail_kept = 4096

-- `split_off`, which panics inside a character: then `none`.
unfoldable pub keep_tail : Text → Option Text
unfolding is_continuation
keep_tail tail =
    if ltb tail_max (length tail)
    then (let kept = drop (length tail - tail_kept) tail in
        elim kept [ [] ↦ some [] | c ∷ rest ↦ if is_continuation c then none else some (c ∷ rest) ])
    else some tail

abbrev pub ends_line : Text → Bool
ends_line [] = false
ends_line (c ∷ s) = c == 10

keep_tail-none :
    (tail : Text) (c : ℕ) (rest : Text)
    → tail_max < length tail
    → drop (length tail - tail_kept) tail ≡ c ∷ rest
    → 128 ≤ c
    → c < 192
    → keep_tail tail ≡ none
unfolding keep_tail is_continuation
keep_tail-none tail c rest long cut lo hi =
    rw (lt→ltb tail_max (length tail) long, cut) (rw (le→leb 128 c lo, lt→ltb c 192 hi) refl)

-- `lines`: a line ends at a line feed, with a carriage return before it or without.
unfoldable pub lines : Text → List Text
lines [] = []
lines (c ∷ s) =
    let rest = lines s in
    if c == 10 then [] ∷ rest else if (c == 13) && ends_line s then rest else push c rest

module _ {V : Type 0} (j : Json V) where
  unfoldable pub harvest_line : Text → ℕ → Text → Metrics → Metrics
  unfolding harvest
  harvest_line model gen_ms line m = elim (strip_prefix (codes "data: ") line) [
    | none ↦ m
    | some rest ↦
        if same (trim rest) (codes "[DONE]")
        then m
        else map_or (j.parse rest) m (λ v. harvest j model gen_ms v m)
  ]

  unfoldable pub harvest_lines : Text → ℕ → List Text → Metrics → Metrics
  unfolding harvest_line
  harvest_lines model gen_ms [] m = m
  harvest_lines model gen_ms (l ∷ ls) m =
      harvest_lines model gen_ms ls (harvest_line model gen_ms l m)

  -- `lossy` is `String::from_utf8_lossy`. `true` once the loop is over, be it by a panic.
  module _ (lossy : Text → Text) where
    unfoldable pub flow : Text → List Event → Flow → Flow × Bool
    unfolding harvest_lines keep_tail lines
    flow model [] f = (f, false)
    flow model (chunk bytes ttft_ms present ∷ es) f =
        let m = if f.first_seen then f.metrics else record_ttft model ttft_ms f.metrics in
        let seen = record f { metrics = m; first_seen = true } in
        elim (keep_tail (f.tail ++ lossy bytes)) [
          | none ↦ (seen, true)
          | some tail ↦
              let rest =
                flow model es
                  (record seen { tail = tail; frames = f.frames ++ passed_on bytes ∷ [] }) in
              if present then rest else (
                record seen { tail = tail; metrics = record_event (codes "client_disconnect") m },
                true,
              )
        ]
    flow model (closed gen_ms ∷ es) f = (
      if f.first_seen
          then record f { metrics = harvest_lines model gen_ms (lines f.tail) f.metrics }
          else f,
      true,
    )
    flow model (broken ∷ es) f = (
      record f {
        metrics = record_event (codes "stream_error") f.metrics;
        frames = f.frames ++ sse_error (codes "stream_error") ∷ [];
      },
      true,
    )
    flow model (expired ∷ es) f = (
      record f {
        metrics = record_event (codes "deadline") f.metrics;
        frames = f.frames ++ sse_error (codes "deadline_exceeded") ∷ [];
      },
      true,
    )

    unfoldable pub stream_body : Text → List Event → Metrics → Flow × Bool
    unfolding flow
    stream_body model es m =
        flow model es (record { metrics = m; frames = []; first_seen = false; tail = [] })

unfoldable IsLost : Flow → Flow × Bool → Type 0
IsLost f x = (x.1 ≡ true) × (x.0.frames ≡ f.frames) × (x.0.metrics.events ≡ f.metrics.events)

-- A chunk that brings the tail above its bound with the inside of a character where the tail is cut ends the loop
-- in a panic: the chunk is not passed on to the client, nor is anything that the provider sends after
-- it, and neither an error frame nor an event tells of it.
pub flow-panics :
    {V : Type 0} (j : Json V) (lossy : Text → Text) (model : Text) (bytes : Text) (ms : ℕ)
    (present : Bool) (es : List Event) (f : Flow) (c : ℕ) (rest : Text)
    → tail_max < length (f.tail ++ lossy bytes)
    → drop (length (f.tail ++ lossy bytes) - tail_kept) (f.tail ++ lossy bytes) ≡ c ∷ rest
    → 128 ≤ c
    → c < 192
    → ((flow j lossy model (chunk bytes ms present ∷ es) f).1 ≡ true)
      × ((flow j lossy model (chunk bytes ms present ∷ es) f).0.frames ≡ f.frames)
      × ((flow j lossy model (chunk bytes ms present ∷ es) f).0.metrics.events ≡ f.metrics.events)
unfolding flow IsLost
flow-panics j lossy model bytes ms present es f c rest long cut lo hi =
    let none_kept = keep_tail-none (f.tail ++ lossy bytes) c rest long cut lo hi in
    let m = if f.first_seen then f.metrics else record_ttft model ms f.metrics in
    on_option (IsLost f) (keep_tail (f.tail ++ lossy bytes))
      (record f { metrics = m; first_seen = true }, true) _ (λ e. lost f.first_seen)
      (λ t e. absurd (ground arith))
  where
    lost :
        (b : Bool)
        → IsLost f (
          record f {
            metrics = if b then f.metrics else record_ttft model ms f.metrics;
            first_seen = true;
          },
          true,
        )
    lost true = (refl, refl, refl)
    lost false = (refl, refl, unfold record_ttft in refl)
