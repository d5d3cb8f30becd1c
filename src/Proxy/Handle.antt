-- ===== src/Proxy/Handle.antt =====
-- The head of `handle` in src/proxy.rs: what happens to a request before its plan is walked.
pub mod Gate
mod Examples
use llm_rate_limit_proxy.Base.{
  ℕ, zero, suc, ◌+◌, ◌*◌, ◌/◌, ◌%◌, ◌-◌, ◌^◌, ◌≤◌, ◌<◌, ◌≡◌, ◌≢◌, ◌⊎◌, inl, inr, refl, sym, ap,
  subst, ◌∙◌, arith, Bool, true, false, not, List, [], ◌∷◌, ◌++◌, Option, none, some, Text, codes,
  ltb, leb, ◌==◌, if◌then◌else◌, ◌&&◌, ◌||◌, max, min, map, filter_map, length, retain, take,
  is_empty, unwrap_or, and_then, or_option, map_or, is_some_and, any, all, find, count_if, same,
  same_iff, same_refl, Bool-cases, Option-cases, All, In, here, there, Result, ok, err, get_elem?,
  set, strip_prefix, drop, replicate, on_if, on_option, append-nil, append_assoc, In-append_cases,
  All-imp,
}
use llm_rate_limit_proxy.Base.Assoc.{get, insert, contains_key}
use llm_rate_limit_proxy.Base.{split, find-holds}
use llm_rate_limit_proxy.Config
use llm_rate_limit_proxy.Config.{ClientKey, of_route, same_protocol}
use llm_rate_limit_proxy.Json
use llm_rate_limit_proxy.Json.{Json, number_at, length_at}
use llm_rate_limit_proxy.Auth.{verify_client_key}
use llm_rate_limit_proxy.Metrics.{
  Metrics, record_event, record_shape, record_stream_mix, track_active,
}
use llm_rate_limit_proxy.Models.{smallest}
use llm_rate_limit_proxy.Proxy.Bodies.{
  Rewriting, requested_model, session_key, wants_stream, inject_usage,
}
use llm_rate_limit_proxy.Proxy.Headers.{forwarded, parse_deadline}
use llm_rate_limit_proxy.Proxy.Path.{normalize_path}
use llm_rate_limit_proxy.Proxy.Shared.{AppState, Reply, refused, no_capacity, set_metrics}
use llm_rate_limit_proxy.Proxy.Walk.{Request, tally}

pub record Incoming : Type 0 where
  pub is_get : Bool
  pub path_query : Text
  pub headers : List (Text × Text)
  pub body : Text

-- The state that the head reads and writes. `inflight` is the counter of `try_admit`.
pub record Front : Type 0 where
  pub setup_required : Bool
  pub clients : List ClientKey
  pub max_inflight : ℕ
  pub inflight : ℕ
  pub no_inject : List Text
  pub app : AppState

-- A request on its way to a provider: as a stream, the body has `stream_options` where `fallback` is there.
pub record Job : Type 0 where
  pub request : Request
  pub path_query : Text
  pub fwd_headers : List (Text × Text)
  pub streaming : Bool
  pub body : Text
  pub fallback : Option Text

-- `turned_away` and `props` are answers. `catalog` goes on in `serve_catalog` and `forwards` in the walk or in the
-- stream, each with the guard of `try_admit`, whose place in `inflight` is free again once the request has ended.
pub data Start : Type 0 where
  turned_away : Reply → Start
  catalog : Start
  props : ℕ → Start
  forwards : Job → Start

abbrev pub on_metrics : (Metrics → Metrics) → Front → Front
on_metrics f s = record s { app = set_metrics f s.app }

-- The guard of a request that is answered.
abbrev pub free_place : Front → Front
free_place s = record s { inflight = s.inflight - 1 }

unfoldable pub first_piece : List Text → Text
first_piece [] = []
first_piece (p ∷ ps) = p

unfoldable pub route_of : Text → Text
unfolding first_piece
route_of path_query = first_piece (split 63 path_query)

module _ {V : Type 0} (j : Json V) (rw' : Rewriting V) (sha256_hex : Text → Text) where
  -- The label of the client's key, from either header.
  unfoldable pub client_of : List (Text × Text) → List ClientKey → Option Text
  client_of headers clients =
      and_then
        (or_option (and_then (get (codes "authorization") headers) (strip_prefix (codes "Bearer ")))
          (get (codes "x-api-key") headers))
        (λ secret. verify_client_key sha256_hex secret clients)

  unfoldable pub note_shape : Text → V → Metrics → Metrics
  note_shape client v m =
      record_shape client (length_at j (codes "messages") v) (length_at j (codes "tools") v)
        (number_at j (codes "max_tokens") v) (rw'.temp_x100 v) m

  -- `stream_options` is added for OpenAI alone, and not for a model that is known to reject it.
  unfoldable pub injected : Front → Request → Option V → Option Text
  injected s rq parsed =
      if same_protocol rq.wire Config.open_ai && not (any (λ m. same m rq.model_label) s.no_inject)
      then and_then parsed (inject_usage j rw')
      else none

  unfoldable pub job_of : Front → ℕ → Incoming → Text → Text → Job
  unfolding injected
  job_of s now inc client path =
      let parsed = j.parse inc.body in
      let rq : Request = record {
        client = client;
        model_label = unwrap_or (and_then parsed (requested_model j rw')) (codes "unknown");
        session = and_then parsed (session_key j rw');
        wire = of_route (route_of path);
        deadline = parse_deadline now inc.headers;
      } in
      let streaming = is_some_and parsed (wants_stream j rw') in
      let with_usage = if streaming then injected s rq parsed else none in
      record {
        request = rq;
        path_query = path;
        fwd_headers = forwarded inc.headers;
        streaming = streaming;
        body = unwrap_or with_usage inc.body;
        fallback = and_then with_usage (λ b. some inc.body);
      }

  -- What is counted of a request that is forwarded.
  unfoldable pub count_job : Incoming → Job → Front → Front
  unfolding note_shape
  count_job inc job s =
      on_metrics
        (λ (m : Metrics). track_active (
          record_stream_mix job.streaming
            (map_or (j.parse inc.body) m (λ v. note_shape job.request.client v m))))
        s

  -- Behind the shedding.
  unfoldable pub route_request : ℕ → Incoming → Text → Front → Front × Start
  unfolding job_of count_job tally
  route_request now inc client s =
      let path = normalize_path inc.path_query in
      let job = job_of s now inc client path in
      if inc.is_get && same (route_of path) (codes "/v1/models")
      then (s, catalog)
      else (if inc.is_get && same (route_of path) (codes "/v1/props")
          then elim (smallest s.app.context_limits) [
            | none ↦ (free_place s, turned_away (refused 404 (codes "unknown_context")))
            | some n_ctx ↦ (
              record (free_place s) {
                app =
                    tally (record (job.request) { model_label = codes "props" }) (codes "200")
                      s.app;
              },
              props n_ctx,
            )
          ]
          else (count_job inc job s, forwards job))

  unfoldable pub handle : ℕ → Incoming → Front → Front × Start
  unfolding client_of route_request
  handle now inc s =
      if s.setup_required
      then (s, turned_away (refused 503 (codes "setup_required")))
      else elim (client_of inc.headers s.clients) [
        | none ↦ (
          on_metrics (record_event (codes "unauthorized")) s,
          turned_away (refused 401 (codes "unauthorized")),
        )
        | some client ↦
            if is_empty s.app.pool.lanes
            then (s, turned_away no_capacity)
            else (if leb s.max_inflight s.inflight
                then (
                  on_metrics (record_event (codes "shed")) s,
                  turned_away (refused 503 (codes "overloaded")),
                )
                else route_request now inc client (record s { inflight = s.inflight + 1 }))
      ]
