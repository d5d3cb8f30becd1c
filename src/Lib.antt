-- ===== src/Lib.antt =====
-- A model of LLM Rate Limit Proxy, a reverse proxy that pools the API keys of several providers and
-- paces each request inside the limit of the key that serves it.
--
-- A request is resolved to providers by the configuration, waits at the governor of its model, is
-- given a lane by the dispatcher, which asks the sliding window of each lane of the pool, and on an
-- answer of the upstream that says it is over its limit benches the lane and notes a rebuff.
--
-- Which file models which part:
--
-- Base           shared types, lists and texts, and `HashMap` as an association list
-- Config         src/config.rs: the stored configuration and its defaults, and in Config/Urls the
--                loop of `normalize_base_url`, in Config/Files `load` and `save`
-- Net            src/net.rs: the allow list
-- Pool           src/pool.rs: Pool/Window is `SlidingWindow`, Pool/Lane `LaneSpec` and `Lane`, Pool/Lanes
--                `lane_specs` and `Pool`, Pool/Affinity the session affinity
-- Dispatch       src/dispatch.rs: `acquire_for`. `visit` is the body of the loop over the lanes, `scan`
--                the loop, `choose` and `settle` the grant, `attempt` one round of the outer loop and
--                `acquire_for` all rounds
-- Governor       src/governor.rs: Governor/State is what each method does to one `ModelState`, Governor
--                the map of them, Governor/Calls a history of calls
-- Settings       src/settings.rs: Settings/Providers is `provider_keys`, `providers` and `aliases`,
--                Settings/Accounts `clients`, `users` and `limits`, Settings/Store their shared state
-- Setup          src/setup.rs: `setup_submit`, alone and in the steps that claims interleave in
-- History        src/history.rs: the snapshots
-- Ledger         src/ledger.rs: `load` and `absorb`
-- Metrics        src/metrics.rs: the counters, the summaries and `sanitize`, Metrics/Requests the counters
--                whose keys are tuples, Metrics/Stats `stats`
-- Models         src/models.rs: the learned limits and the cache of catalogs, Models/Merge `merge`,
--                `extract` and `providers_offering`
-- Json           what the code reads of a JSON value, whose type is a parameter
-- Auth           src/auth.rs: the throttle of logins and `verify_client_key`, Auth/Passwords, Auth/Tokens
--                and Auth/Cookies the sessions, Auth/Guards the three guards and the login
-- App            src/lib.rs: `source_allowlist` and what the dashboard's handlers compute
-- Proxy          src/proxy.rs: Proxy/Handle the head of `handle`, Proxy/Headers and Proxy/Bodies what is
--                forwarded, Proxy/Path the path and `Retry-After`, Proxy/Plan `resolve_plan` and
--                `bench_lane`, Proxy/Inflight `try_admit` as a relation on its atomic operations,
--                Proxy/Admission `admit_model`, Proxy/Walk the buffered rest of `handle`, Proxy/Relay
--                and Proxy/Harvest `relay` and `harvest`, Proxy/Stream `stream_proxy`, Proxy/Stream/Body
--                `stream_body`, Proxy/Listing `serve_catalog` and `fetch_catalog`
--
-- A request comes to Proxy/Handle, which turns it away, answers it, or makes it a job. The walk of a job
-- takes its plan step by step. A step waits for the governor's permit, then for a lane, then sends, and
-- ends in an answer, in the next step, or not at all while its request is still on its way, which
-- it also is while the body of a provider's response does not end. Proxy/Stream
-- does the same with frames in place of an answer, and may send a step's request a second time.
--
-- State is passed explicitly: a method of `&self` that writes behind a mutex returns the new state
-- next to its answer. Times are natural numbers, milliseconds where a constant is compared with
-- them, and a duration between two times stops at zero, as the code's does. A map is an association
-- list. Integers are natural numbers: the program's counters are far below the width of `usize`.
-- The hash of the standard library, which the affinity uses, its parser of addresses, the digests, base64,
-- UTF-8, JSON and the outcome of a save to the disk are parameters; Auth/Crypto states what is relied on
-- of the digests and of base64. Text is the list of its code points, or of its bytes where the code
-- counts bytes; the money and rates of the configuration are whole hundredths.
--
-- The loop of `normalize_base_url` runs on fuel, one round more than the text has characters, which
-- is enough since each round that changes the text shortens it; so does the loop of `normalize_path`,
-- for the same reason. The outer loop of `acquire_for` runs over a list of rounds, each with its time
-- and with what other requests did to the pool before it; two rounds more than there are eligible lanes
-- on the bench are enough, since a lane leaves the bench in between, as long as no lane holds more hits
-- than its rpm, which one can after a save that lowers the rpm.
--
-- A walk runs over its plan and over a list of turns, one for each step that the request reaches: the polls
-- of the governor, the rounds of the dispatcher, what others do to the shared state, and what the
-- provider answers. A walk whose turns run out is a request that is still on its way. The decimal print
-- of a number runs on fuel, one more than the number, and each round divides it by ten.
--
-- Not modelled: HTTP, the tasks of the runtime, the dashboard, the FIFO gate that the runtime's mutex
-- is, the text of the metrics page, and the prices of the savings, which are floats.
pub mod Base
pub mod Config
pub mod Json
pub mod Net
pub mod Pool
pub mod Dispatch
pub mod Governor
pub mod Settings
pub mod Setup
pub mod History
pub mod Ledger
pub mod Metrics
pub mod Models
pub mod Auth
pub mod App
pub mod Proxy
