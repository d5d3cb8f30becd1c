-- ===== src/Setup.antt =====
-- src/setup.rs: the first-run claim. The password hash and the secret of the client key come in as
-- parameters, and so does whether the save succeeds. A claim is three steps, between which others may take theirs:
-- the test of `setup_required` and of the form, what it does under the store's mutex, from the test for a superuser
-- to the save, and what it does after a save.
mod Claims
mod Examples
use llm_rate_limit_proxy.Base.{
  ℕ, zero, suc, get_elem?, take, drop, Bool, true, false, List, [], ◌∷◌, ◌++◌, Option, none, some,
  Text, codes, is_empty, if◌then◌else◌, ◌||◌, unwrap_or, not,
}
use llm_rate_limit_proxy.Config.{
  StoredConfig, User, Role, superuser, Provider, ProviderKey, Protocol, open_ai, ClientKey,
  superuser_of,
}
use llm_rate_limit_proxy.Config.Urls.{trim, normalize_base_url}
use llm_rate_limit_proxy.Pool.Lanes.{Pool, lane_specs, for_provider_window}

pub record SetupForm : Type 0 where
  pub username : Text
  pub password : Text
  pub provider_name : Text
  pub base_url : Text
  pub api_key : Text
  pub protocol : Option Protocol

-- The parts of the state that a claim reaches; `disk` is the configuration last saved.
pub record Site : Type 0 where
  pub setup_required : Bool
  pub store : StoredConfig
  pub disk : Option StoredConfig
  pub pool : Pool

pub data Reply : Type 0 where
  already_complete bad_form not_saved ready : Reply

-- Claims on their way: those in front of the mutex, in some order, and how many have saved and not yet replied.
pub record Race : Type 0 where
  pub site : Site
  pub waiting : List SetupForm
  pub saved : ℕ
  pub replies : List Reply

-- `enter n` is the turn of the claim at `n` of those in front of the mutex.
pub data Move : Type 0 where
  arrive : SetupForm → Move
  enter : ℕ → Bool → Move
  finish : Move

unfoldable pub replied : Site × Reply → Race → Race
replied (site, ready) r = record r { site = site; saved = suc r.saved }
replied (site, already_complete) r = record r {
  site = site;
  replies = already_complete ∷ r.replies;
}
replied (site, bad_form) r = record r { site = site; replies = bad_form ∷ r.replies }
replied (site, not_saved) r = record r { site = site; replies = not_saved ∷ r.replies }

module _ (hash_password : Text → Text) (record_of : Text → Text → ClientKey)
    (provider_window : ℕ) where
  -- The store with the account, the provider and the client key of the form.
  unfoldable pub claimed : SetupForm → StoredConfig → StoredConfig
  claimed form sc = record sc {
    users =
        sc.users
        ++ record {
          username = form.username;
          pw_hash = hash_password form.password;
          role = superuser;
        }
          ∷ [];
    providers =
        sc.providers
        ++ record {
          name = form.provider_name;
          base_url = normalize_base_url form.base_url;
          keys =
              record { key = form.api_key; enabled = true; rpm = 40; owner = form.username } ∷ [];
          protocol = unwrap_or form.protocol open_ai;
        }
          ∷ [];
    clients = sc.clients ++ record_of (codes "default") form.username ∷ [];
  }

  unfoldable pub claim : Bool → SetupForm → Site → Site × Reply
  unfolding claimed
  claim saves form site = elim (superuser_of site.store) [
    | some _ ↦ (site, already_complete)
    | none ↦
        let store = claimed form site.store in
        if saves
        then (record site { store = store; disk = some store }, ready)
        else (record site { store = store }, not_saved)
  ]

  -- `none` for a claim that goes on.
  unfoldable pub screen : SetupForm → Site → Option Reply
  screen form site =
      if not site.setup_required
      then some already_complete
      else (if is_empty (trim form.username) || is_empty form.password then some bad_form else none)

  -- After a save, when others may have changed the store.
  unfoldable pub complete : Site → Site
  complete site = record site {
    setup_required = false;
    pool = for_provider_window (lane_specs site.store) provider_window;
  }

  unfoldable pub completed : Site × Reply → Site × Reply
  unfolding complete
  completed (site, ready) = (complete site, ready)
  completed (site, already_complete) = (site, already_complete)
  completed (site, bad_form) = (site, bad_form)
  completed (site, not_saved) = (site, not_saved)

  -- A claim that nobody comes between.
  unfoldable pub setup_submit : Bool → SetupForm → Site → Site × Reply
  unfolding claim screen completed
  setup_submit saves form site = elim (screen form site) [
    | some reply ↦ (site, reply)
    | none ↦ completed (claim saves form site)
  ]

  -- The replies to a sequence of claims, with the outcome of each one's save.
  unfoldable pub submit_all : List (Bool × SetupForm) → Site → Site × List Reply
  submit_all [] site = (site, [])
  submit_all (f ∷ fs) site =
      let next = setup_submit f.0 f.1 site in
      let rest = submit_all fs next.0 in (rest.0, next.1 ∷ rest.1)

  -- One step of some claim: its arrival, its turn at the mutex, with whether the save succeeds, and the rest.
  unfoldable pub move : Move → Race → Race
  unfolding claim screen complete
  move (arrive form) r = elim (screen form r.site) [
    | some reply ↦ record r { replies = reply ∷ r.replies }
    | none ↦ record r { waiting = form ∷ r.waiting }
  ]
  move (enter n saves) r = elim (get_elem? r.waiting n) [
    | none ↦ r
    | some form ↦
        replied (claim saves form r.site)
          (record r { waiting = take n r.waiting ++ drop (suc n) r.waiting })
  ]
  move finish r = elim r.saved [
    | zero ↦ r
    | suc n ↦ record r { site = complete r.site; saved = n; replies = ready ∷ r.replies }
  ]

  unfoldable pub race : List Move → Race → Race
  unfolding move
  race [] r = r
  race (m ∷ ms) r = race ms (move m r)
