-- ===== src/Proxy/Handle/Examples.antt =====
-- The theorems on the head of `handle` and on the headers at concrete requests.
use llm_rate_limit_proxy.Base.{
  ℕ, ◌+◌, ◌<◌, ◌≡◌, refl, arith, false, List, [], ◌∷◌, none, some, Text, codes, map, length,
  is_empty, find, same, All, strip_prefix,
}
use llm_rate_limit_proxy.Base.Assoc.{get}
use llm_rate_limit_proxy.Config.{ClientKey, open_ai, anthropic}
use llm_rate_limit_proxy.Json.{Json}
use llm_rate_limit_proxy.Auth.{verify_client_key}
use llm_rate_limit_proxy.Dispatch.{Permit}
use llm_rate_limit_proxy.Proxy.Bodies.{Rewriting, session_key, session_key-grows}
use llm_rate_limit_proxy.Proxy.Headers.{IsOwn, forwarded, build_request, build_request-IsOwn}
use llm_rate_limit_proxy.Proxy.Handle.{
  Incoming, Front, Job, forwards, handle, job_of, client_of, route_request,
}
use llm_rate_limit_proxy.Proxy.Path.{normalize_path, collapse}
use llm_rate_limit_proxy.Proxy.Handle.Gate.{IsKnown, handle-IsKnown}

abbrev claude : Permit
claude = record {
  lane_idx = 0;
  provider = codes "a";
  base_url = codes "http://a.test";
  key = codes "lane";
  protocol = anthropic;
}

abbrev sent_headers : List (Text × Text)
sent_headers =
    (codes "authorization", codes "Bearer me")
    ∷ (codes "accept", codes "*")
    ∷ (codes "host", codes "proxy")
    ∷ []

build_request-IsOwn_example :
    All
      (IsOwn claude)
      (build_request claude (codes "/v1/messages") (forwarded sent_headers) []).headers
build_request-IsOwn_example = build_request-IsOwn claude (codes "/v1/messages") sent_headers []

-- A body is the list of its messages.
abbrev talk : Json (List ℕ)
talk = record {
  parse = λ b. some b;
  field = λ key v. some v;
  as_array = λ v. some (map (λ n. n ∷ []) v);
  as_str = λ v. none;
  as_u64 = λ v. none;
  as_bool = λ v. none;
}

abbrev plainly : Rewriting (List ℕ)
plainly = record {
  hash = λ model messages. length messages;
  to_text = λ v. v;
  temp_x100 = λ v. 0;
  include_usage = λ v. none;
  with_model = λ model v. none;
}

session_key-grows_example :
    session_key talk plainly (1 ∷ 2 ∷ 3 ∷ []) ≡ session_key talk plainly (1 ∷ 2 ∷ [])
session_key-grows_example =
    session_key-grows talk plainly (1 ∷ 2 ∷ []) (1 ∷ 2 ∷ 3 ∷ []) ((1 ∷ []) ∷ (2 ∷ []) ∷ [])
      ((3 ∷ []) ∷ []) refl refl refl (omega arith)

abbrev known_key : ClientKey
known_key = record { label = codes "me"; digest = codes "me"; last4 = []; owner = [] }

abbrev front : Front
front = record {
  setup_required = false;
  clients = known_key ∷ [];
  max_inflight = 2;
  inflight = 1;
  no_inject = [];
  app = record {
    governor = [];
    pool = record {
      lanes =
          record {
            provider = codes "a";
            base_url = codes "u";
            key = codes "k";
            rpm = 1;
            protocol = open_ai;
            limiter = record { limit = 1; window = 60; hits = [] };
            cooldown_until = none;
          }
          ∷ [];
      window = 60;
    };
    metrics = record {
      requests = [];
      latency = [];
      tokens = [];
      lanes = [];
      ttft_ms = [];
      tok_per_sec = [];
      queue_wait_ms = record { sum = 0; count = 0; max_seen = 0 };
      finish = [];
      extras = [];
      shape = [];
      events = [];
      streamed = 0;
      buffered = 0;
      active = 0;
    };
    context_limits = [];
  };
}

abbrev incoming : Incoming
incoming = record { is_get = false; path_query = []; headers = sent_headers; body = 1 ∷ [] }

abbrev job : Job
job = job_of talk plainly (λ s. s) front 0 incoming (codes "me") []

forwarded_job : (handle talk plainly (λ s. s) 0 incoming front).1 ≡ forwards job
unfolding handle client_of route_request verify_client_key get find same strip_prefix job_of
    normalize_path collapse
forwarded_job = refl

handle-IsKnown_example :
    (false ≡ false)
    × IsKnown (λ s. s) sent_headers (known_key ∷ []) job.request.client
    × (is_empty front.app.pool.lanes ≡ false)
    × (1 < 2)
    × ((handle talk plainly (λ s. s) 0 incoming front).0.inflight ≡ 1 + 1)
handle-IsKnown_example = handle-IsKnown talk plainly (λ s. s) 0 incoming front job forwarded_job
