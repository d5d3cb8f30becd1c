-- ===== src/Settings/Ownership.antt =====
-- Who keeps what through `users` and `clients` of src/settings.rs.
use llm_rate_limit_proxy.Base.{
  ◌≡◌, ◌≢◌, inl, inr, refl, sym, subst, ◌∙◌, arith, Bool, true, false, not, List, [], ◌∷◌, ◌++◌,
  some, Text, is_empty, Bool-cases, find, retain, length, ltb, any, same, same_iff, In, here, there,
  In-retain_of, on_if, on_option, ◌&&◌, In-append_left, find-holds,
}
use llm_rate_limit_proxy.Config.{User, ClientKey}
use llm_rate_limit_proxy.Config.Urls.{trim}
use llm_rate_limit_proxy.Settings.Store.{App, Answer, refused, saved, with_store}
use llm_rate_limit_proxy.Settings.Accounts.{
  called, is_admin, ClientAction, mint, revoke, ends_in, clients, UserAction, add_user, remove_user,
  set_password, users, with_users, update_user, is_superuser, min_password,
}

-- The account that a login as `name` finds is the superuser's.
unfoldable pub IsSuper : Text → List User → Type 0
IsSuper name us = (u : User) × (find (called name) us ≡ some u) × (is_superuser u.role ≡ true)

unfoldable pub IsSuperIn : Text → App × Answer → Type 0
IsSuperIn name r = IsSuper name r.0.store.users

saved-IsSuper :
    (name : Text) (saves : Bool) (app : App) (us : List User)
    → IsSuper name us
    → IsSuperIn name (saved saves (with_users app us))
unfolding IsSuperIn saved with_users with_store
saved-IsSuper name true app us h = h
saved-IsSuper name false app us h = h

refused-IsSuper :
    (name : Text) (app : App) (e : Text)
    → IsSuper name app.store.users
    → IsSuperIn name (app, refused e)
unfolding IsSuperIn
refused-IsSuper name app e h = h

find-append :
    (p : User → Bool) (us vs : List User) {u : User}
    → find p us ≡ some u
    → find p (us ++ vs) ≡ some u
unfolding find
find-append p [] vs h = absurd (ground arith)
find-append p (v ∷ us) vs {u} h = ground (arith, find-append p us vs {u = u})

find-retain :
    (name other : Text) (us : List User) {u : User}
    → same other name ≡ false
    → find (called name) us ≡ some u
    → find (called name) (retain (λ v. not (called other v)) us) ≡ some u
unfolding find retain called
find-retain name other [] ne h = absurd (ground arith)
find-retain name other (v ∷ us) {u} ne h = elim (Bool-cases (same v.username other)) [
  | inl e ↦ rw (e) (
      find-retain name other us ne
        (ground (arith, same_iff v.username other, same_iff v.username name, same_iff other name)))
  | inr e ↦ rw (e) (ground (arith, find-retain name other us {u = u} ne))
]

IsSuper-update :
    (name other : Text) (f : User → User) (us : List User)
    → ((u : User) → (f u).username ≡ u.username)
    → ((u : User) → (f u).role ≡ u.role)
    → IsSuper name us
    → IsSuper name (update_user other f us)
unfolding IsSuper find update_user called
IsSuper-update name other f [] named roles (u, h, s) = absurd (ground arith)
IsSuper-update name other f (v ∷ us) named roles (u, h, s) =
    elim (Bool-cases (same v.username other)) [
      | inl e ↦ rw (e) (elim (Bool-cases (same v.username name)) [
        | inl m ↦ (f v, rw (named v, m) refl, rw (roles v) (ground arith))
        | inr m ↦ (u, rw (named v, m) (ground arith), s)
      ])
      | inr e ↦ rw (e) (elim (Bool-cases (same v.username name)) [
        | inl m ↦ (v, rw (m) refl, ground arith)
        | inr m ↦
            let rest = IsSuper-update name other f us named roles (u, ground arith, s) in
            (rest.0, rw (m) rest.1, rest.2)
      ])
    ]

IsSuper-append : (name : Text) (us vs : List User) → IsSuper name us → IsSuper name (us ++ vs)
unfolding IsSuper
IsSuper-append name us vs (u, h, s) = (u, find-append (called name) us vs h, s)

IsSuper-remove :
    (name other : Text) (us : List User) (v : User)
    → find (called other) us ≡ some v
    → is_superuser v.role ≡ false
    → IsSuper name us
    → IsSuper name (retain (λ w. not (called other w)) us)
unfolding IsSuper
IsSuper-remove name other us v found plain (u, h, s) = elim (Bool-cases (same other name)) [
  | inl e ↦ absurd (
      let q : find (called name) us ≡ some v =
        subst (λ (k : Text). find (called k) us ≡ some v) ((same_iff other name).0 e) found in
      ground arith)
  | inr e ↦ (u, find-retain name other us e h, s)
]

module _ (hash_password : Text → Text) where
  users-IsSuper :
      (name : Text) (saves : Bool) (action : UserAction) (app : App)
      → IsSuper name app.store.users
      → IsSuperIn name (users hash_password saves action app)
  unfolding users
  users-IsSuper name saves (add_user username password wanted) app h =
      on_if (IsSuperIn name) (is_empty (trim username)) _ _ (λ _. refused-IsSuper name app _ h)
        (λ _.
          on_if (IsSuperIn name) (ltb (length password) min_password) _ _
            (λ _. refused-IsSuper name app _ h)
            (λ _.
              on_if (IsSuperIn name) (any (called (trim username)) app.store.users) _ _
                (λ _. refused-IsSuper name app _ h)
                (λ _. saved-IsSuper name saves app _ (IsSuper-append name app.store.users _ h))))
  users-IsSuper name saves (remove_user username) app h =
      on_option (IsSuperIn name) (find (called username) app.store.users) _ _
        (λ _. refused-IsSuper name app _ h)
        (λ u found.
          on_if (IsSuperIn name) (is_superuser u.role) _ _ (λ _. refused-IsSuper name app _ h)
            (λ plain.
              saved-IsSuper name saves app _
                (IsSuper-remove name username app.store.users u found plain h)))
  users-IsSuper name saves (set_password username password) app h =
      on_if (IsSuperIn name) (ltb (length password) min_password) _ _
        (λ _. refused-IsSuper name app _ h)
        (λ _.
          on_option (IsSuperIn name) (find (called username) app.store.users) _ _
            (λ _. refused-IsSuper name app _ h)
            (λ u _. saved-IsSuper name saves app _ (
              IsSuper-update name username (λ v. record v { pw_hash = hash_password password })
                app.store.users (λ u. refl) (λ u. refl) h)))

  unfoldable pub users_all : List (Bool × UserAction) → App → App
  users_all [] app = app
  users_all (a ∷ rest) app = users_all rest (users hash_password a.0 a.1 app).0

  -- Through any edits of the accounts, whatever their saves do, the account that a login as the
  -- superuser finds stays there and stays the superuser's.
  pub users_all-IsSuper :
      (name : Text) (actions : List (Bool × UserAction)) (app : App)
      → IsSuper name app.store.users
      → IsSuper name (users_all actions app).store.users
  unfolding users_all IsSuperIn
  users_all-IsSuper name [] app h = h
  users_all-IsSuper name (a ∷ rest) app h =
      users_all-IsSuper name rest (users hash_password a.0 a.1 app).0
        (users-IsSuper name a.0 a.1 app h)

unfoldable pub HasKey : ClientKey → App × Answer → Type 0
HasKey c r = In c r.0.store.clients

saved-HasKey :
    (c : ClientKey) (saves : Bool) (app : App) (cs : List ClientKey)
    → In c cs
    → HasKey c (saved saves (with_store app (record (app.store) { clients = cs })))
unfolding HasKey saved with_store
saved-HasKey c true app cs h = h
saved-HasKey c false app cs h = h

refused-HasKey :
    (c : ClientKey) (app : App) (a : Answer) → In c app.store.clients → HasKey c (app, a)
unfolding HasKey
refused-HasKey c app a h = h

find-In :
    (p : ClientKey → Bool) (cs : List ClientKey) {d : ClientKey} → find p cs ≡ some d → In d cs
unfolding find
find-In p [] h = absurd (ground arith)
find-In p (c ∷ cs) {d} h = elim (Bool-cases (p c)) [
  | inl e ↦ subst (λ x. In x (c ∷ cs)) {x = c} {y = d} (ground arith) here
  | inr e ↦ there (find-In p cs (ground arith))
]

other :
    (last4 who : Text) (app : App) (c d : ClientKey)
    → find (ends_in last4) app.store.clients ≡ some d
    → is_admin app who ≡ false
    → (not (same d.owner who) && not (is_admin app who)) ≡ false
    → ((d : ClientKey) → In d app.store.clients → d.last4 ≡ c.last4 → d.owner ≢ who)
    → not (ends_in last4 c) ≡ true
unfolding ends_in
other last4 who app c d found plain own alone = elim (Bool-cases (same c.last4 last4)) [
  | inr e ↦ rw (e) refl
  | inl e ↦
      let suffix =
        (same_iff d.last4 last4).0 (find-holds (ends_in last4) app.store.clients found) in
      let owner = (same_iff d.owner who).0 (ground arith) in
      absurd (
        alone d (find-In (ends_in last4) app.store.clients found)
          (suffix ∙ sym ((same_iff c.last4 last4).0 e)) owner)
]

-- A caller who is no admin takes no client key of another user away, provided that no key of the caller
-- ends in the same four characters.
pub clients-HasKey :
    (record_of : Text → Text → ClientKey) (saves : Bool) (who : Text) (action : ClientAction)
    (app : App) (c : ClientKey)
    → is_admin app who ≡ false
    → In c app.store.clients
    → ((d : ClientKey) → In d app.store.clients → d.last4 ≡ c.last4 → d.owner ≢ who)
    → HasKey c (clients record_of saves who action app)
unfolding clients
clients-HasKey record_of saves who (mint label) app c plain mine alone =
    on_if (HasKey c) (is_empty (trim label)) _ _ (λ _. refused-HasKey c app _ mine)
      (λ _. saved-HasKey c saves app _ (In-append_left _ mine))
clients-HasKey record_of saves who (revoke last4) app c plain mine alone =
    on_option (HasKey c) (find (ends_in last4) app.store.clients) _ _
      (λ _. refused-HasKey c app _ mine)
      (λ d found.
        on_if (HasKey c) (not (same d.owner who) && not (is_admin app who)) _ _
          (λ _. refused-HasKey c app _ mine)
          (λ own. saved-HasKey c saves app _ (
            In-retain_of (λ e. not (ends_in last4 e)) mine
              (other last4 who app c d found plain own alone))))
