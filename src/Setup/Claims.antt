-- ===== src/Setup/Claims.antt =====
-- One claim at most succeeds, and what a save that fails leaves behind.
use llm_rate_limit_proxy.Base.{
  ℕ, zero, suc, ◌+◌, ◌<◌, sym, get_elem?, take, drop, ◌≤◌, ◌≡◌, refl, subst, arith, Bool, true,
  false, not, List, [], ◌∷◌, ◌++◌, Option, none, some, Text, is_empty, ◌||◌, count_if, find, on_if,
  on_option,
}
use llm_rate_limit_proxy.Config.{StoredConfig, User, ClientKey, superuser_of, is_superuser}
use llm_rate_limit_proxy.Config.Urls.{trim}
use llm_rate_limit_proxy.Setup.{
  SetupForm, Site, Reply, already_complete, bad_form, not_saved, ready, claimed, claim,
  setup_submit, submit_all, screen, complete, completed, Race, Move, arrive, enter, finish, move,
  race, replied,
}

abbrev pub is_ready : Reply → Bool
is_ready ready = true
is_ready _ = false

abbrev pub is_some : Option User → Bool
is_some none = false
is_some (some u) = true

find-snoc :
    (us : List User) (u : User)
    → is_superuser u.role ≡ true
    → is_some (find (λ v. is_superuser v.role) (us ++ u ∷ [])) ≡ true
unfolding find
find-snoc [] u h = rw (h) refl
find-snoc (v ∷ us) u h = ground (arith, find-snoc us u h)

-- A reply to a closed setup, which stays closed.
unfoldable pub IsClosed : Site × Reply → Type 0
IsClosed r = (is_ready r.1 ≡ false) × (is_some (superuser_of r.0.store) ≡ true)

-- What a reply says of the site: a superuser is there after `ready`, and also after `not_saved`, where the
-- setup is still asked for.
unfoldable pub IsAfter : Site × Reply → Type 0
IsAfter (site, already_complete) = Unit
IsAfter (site, bad_form) = Unit
IsAfter (site, ready) = is_some (superuser_of site.store) ≡ true
IsAfter (site, not_saved) =
    (is_some (superuser_of site.store) ≡ true) × (site.setup_required ≡ true)

-- What the screening tells of the site, and which replies it gives.
abbrev IsScreened : Site → Option Reply → Type 0
IsScreened site none = site.setup_required ≡ true
IsScreened site (some already_complete) = Unit
IsScreened site (some bad_form) = Unit
IsScreened site (some ready) = ⊥
IsScreened site (some not_saved) = ⊥

module _ (hash_password : Text → Text) (record_of : Text → Text → ClientKey)
    (provider_window : ℕ) where
  claimed-has :
      (form : SetupForm) (sc : StoredConfig)
      → is_some (superuser_of (claimed hash_password record_of provider_window form sc)) ≡ true
  unfolding claimed superuser_of is_superuser
  claimed-has form sc = find-snoc sc.users _ refl

  screen-IsScreened :
      (form : SetupForm) (site : Site)
      → IsScreened site (screen hash_password record_of provider_window form site)
  unfolding screen
  screen-IsScreened form site =
      on_if (IsScreened site) (not site.setup_required) _ _ (λ _. tt)
        (λ asked.
          on_if (IsScreened site) (is_empty (trim form.username) || is_empty form.password) _ _
            (λ _. tt) (λ _. ground arith))

  claim-IsClosed :
      (saves : Bool) (form : SetupForm) (site : Site)
      → is_some (superuser_of site.store) ≡ true
      → IsClosed (claim hash_password record_of provider_window saves form site)
  unfolding claim IsClosed
  claim-IsClosed saves form site h =
      on_option IsClosed (superuser_of site.store) _ _ (λ e. absurd (ground arith))
        (λ u _. (refl, h))

  claim-IsAfter :
      (saves : Bool) (form : SetupForm) (site : Site)
      → site.setup_required ≡ true
      → IsAfter (claim hash_password record_of provider_window saves form site)
  unfolding claim IsAfter
  claim-IsAfter saves form site asked =
      on_option IsAfter (superuser_of site.store) _ _
        (λ _.
          on_if IsAfter saves _ _ (λ _. claimed-has form site.store)
            (λ _. (claimed-has form site.store, asked)))
        (λ u _. tt)

  completed-IsClosed :
      (x : Site × Reply)
      → IsClosed x
      → IsClosed (completed hash_password record_of provider_window x)
  unfolding completed complete IsClosed
  completed-IsClosed (site, ready) h = h
  completed-IsClosed (site, already_complete) h = h
  completed-IsClosed (site, bad_form) h = h
  completed-IsClosed (site, not_saved) h = h

  completed-IsAfter :
      (x : Site × Reply) → IsAfter x → IsAfter (completed hash_password record_of provider_window x)
  unfolding completed complete IsAfter
  completed-IsAfter (site, ready) h = h
  completed-IsAfter (site, already_complete) h = h
  completed-IsAfter (site, bad_form) h = h
  completed-IsAfter (site, not_saved) h = h

  -- What the screening leaves of a claim.
  abbrev screened : Site → Option Reply → Site × Reply → Site × Reply
  screened site none next = next
  screened site (some reply) next = (site, reply)

  submit-screened :
      (saves : Bool) (form : SetupForm) (site : Site)
      → setup_submit hash_password record_of provider_window saves form site
        ≡ screened site (screen hash_password record_of provider_window form site) (
            completed hash_password record_of provider_window
              (claim hash_password record_of provider_window saves form site))
  unfolding setup_submit
  submit-screened saves form site = go (screen hash_password record_of provider_window form site) _
    where
      go :
          (o : Option Reply) (next : Site × Reply)
          → (elim o as (λ _. Site × Reply) [ some reply ↦ (site, reply) | none ↦ next ])
            ≡ screened site o next
      go none next = refl
      go (some reply) next = refl

  -- A superuser in the store closes the setup for good.
  submit-IsClosed :
      (saves : Bool) (form : SetupForm) (site : Site)
      → is_some (superuser_of site.store) ≡ true
      → IsClosed (setup_submit hash_password record_of provider_window saves form site)
  submit-IsClosed saves form site h =
      subst IsClosed (sym (submit-screened saves form site)) (
        go (screen hash_password record_of provider_window form site) (screen-IsScreened form site))
    where
      go :
          (o : Option Reply)
          → IsScreened site o
          → IsClosed (
              screened site o (
                completed hash_password record_of provider_window
                  (claim hash_password record_of provider_window saves form site)))
      go none s = completed-IsClosed _ (claim-IsClosed saves form site h)
      go (some already_complete) s = unfold IsClosed in (refl, h)
      go (some bad_form) s = unfold IsClosed in (refl, h)
      go (some ready) s = elim s [ ]
      go (some not_saved) s = elim s [ ]

  submit-IsAfter :
      (saves : Bool) (form : SetupForm) (site : Site)
      → IsAfter (setup_submit hash_password record_of provider_window saves form site)
  submit-IsAfter saves form site =
      subst IsAfter (sym (submit-screened saves form site)) (
        go (screen hash_password record_of provider_window form site) (screen-IsScreened form site))
    where
      go :
          (o : Option Reply)
          → IsScreened site o
          → IsAfter (
              screened site o (
                completed hash_password record_of provider_window
                  (claim hash_password record_of provider_window saves form site)))
      go none s = completed-IsAfter _ (claim-IsAfter saves form site s)
      go (some already_complete) s = unfold IsAfter in tt
      go (some bad_form) s = unfold IsAfter in tt
      go (some ready) s = elim s [ ]
      go (some not_saved) s = elim s [ ]

  closed_all :
      (fs : List (Bool × SetupForm)) (site : Site)
      → is_some (superuser_of site.store) ≡ true
      → count_if is_ready (submit_all hash_password record_of provider_window fs site).1 ≡ 0
  unfolding submit_all count_if IsClosed
  closed_all [] site h = refl
  closed_all (f ∷ fs) site h =
      let (refusal, still) = submit-IsClosed f.0 f.1 site h in
      rw (refusal)
        (closed_all fs (setup_submit hash_password record_of provider_window f.0 f.1 site).0 still)

  -- Replies of success given or due, of which there is one at most, and none without a superuser in the store.
  record IsWon (r : Race) : Type 0 where
    one : count_if is_ready r.replies + r.saved ≤ 1
    held : 0 < count_if is_ready r.replies + r.saved → is_some (superuser_of r.site.store) ≡ true

  none-won : (n : ℕ) (o : Option User) → (0 < n → is_some o ≡ true) → o ≡ none → n ≡ 0
  none-won zero o h e = refl
  none-won (suc n) o h e = let x = h (omega arith) in absurd (ground arith)

  replied-IsWon :
      (saves : Bool) (form : SetupForm) (r : Race)
      → IsWon r
      → IsWon (replied (claim hash_password record_of provider_window saves form r.site) r)
  unfolding claim replied count_if
  replied-IsWon saves form r h =
      on_option (λ (x : Site × Reply). IsWon (replied x r)) (superuser_of r.site.store) _ _
        (λ e.
          let zeroes = none-won (count_if is_ready r.replies + r.saved) _ h.held e in
          let has = claimed-has form r.site.store in
          on_if (λ (x : Site × Reply). IsWon (replied x r)) saves _ _
            (λ _. record { one = omega (arith, zeroes); held = λ _. has })
            (λ _. record { one = omega (arith, zeroes); held = λ _. has }))
        (λ u _. record { one = h.one; held = h.held })

  move-IsWon :
      (m : Move) (r : Race) → IsWon r → IsWon (move hash_password record_of provider_window m r)
  unfolding move count_if
  move-IsWon (arrive form) r h =
      go (screen hash_password record_of provider_window form r.site)
        (screen-IsScreened form r.site)
    where
      go :
          (o : Option Reply)
          → IsScreened r.site o
          → IsWon (elim o as (λ _. Race) [
            | some reply ↦ record r { replies = reply ∷ r.replies }
            | none ↦ record r { waiting = form ∷ r.waiting }
          ])
      go none s = record { one = h.one; held = h.held }
      go (some already_complete) s = record { one = h.one; held = h.held }
      go (some bad_form) s = record { one = h.one; held = h.held }
      go (some ready) s = elim s [ ]
      go (some not_saved) s = elim s [ ]
  move-IsWon (enter n saves) r h =
      on_option IsWon (get_elem? r.waiting n) _ _ (λ _. h)
        (λ form _.
          replied-IsWon saves form
            (record r { waiting = take n r.waiting ++ drop (suc n) r.waiting })
            (record { one = h.one; held = h.held }))
  move-IsWon finish r h = go r.saved refl
    where
      go :
          (n : ℕ)
          → r.saved ≡ n
          → IsWon (elim n as (λ _. Race) [
            | zero ↦ r
            | suc k ↦ record r {
              site = complete hash_password record_of provider_window r.site;
              saved = k;
              replies = ready ∷ r.replies;
            }
          ])
      go zero e = h
      go (suc k) e = record { one = omega (arith, h.one, e); held = λ _. h.held (omega (arith, e)) }

  race-IsWon :
      (ms : List Move) (r : Race)
      → IsWon r
      → IsWon (race hash_password record_of provider_window ms r)
  unfolding race
  race-IsWon [] r h = h
  race-IsWon (m ∷ ms) r h =
      race-IsWon ms (move hash_password record_of provider_window m r) (move-IsWon m r h)

  -- However any number of claims interleave, whatever their forms and their saves, and whoever has got past the test
  -- of `setup_required`, one at most is told that the setup is complete and shown a client key.
  pub race-once :
      (ms : List Move) (site : Site) (waiting : List SetupForm)
      → count_if is_ready
          (race hash_password record_of provider_window ms
            (record { site = site; waiting = waiting; saved = 0; replies = [] })).replies
        ≤ 1
  unfolding count_if
  race-once ms site waiting =
      let start : Race = record { site = site; waiting = waiting; saved = 0; replies = [] } in
      omega (
        arith,
        (race-IsWon ms start
            (record { one = omega arith; held = λ lt. absurd (omega (arith, lt)) })).one,
      )

  -- After a claim whose save failed the setup is still asked for, and yet no claim succeeds any more.
  pub submit_all-locked :
      (saves : Bool) (form : SetupForm) (site site' : Site) (fs : List (Bool × SetupForm))
      → setup_submit hash_password record_of provider_window saves form site ≡ (site', not_saved)
      → (site'.setup_required ≡ true)
        × (count_if is_ready (submit_all hash_password record_of provider_window fs site').1 ≡ 0)
  unfolding IsAfter
  submit_all-locked saves form site site' fs e =
      let (has, asked) = subst IsAfter e (submit-IsAfter saves form site) in
      (asked, closed_all fs site' has)
