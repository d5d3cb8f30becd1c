-- ===== src/Dispatch/Fits.antt =====
-- A permit of `acquire_for` fits the query that it was given for, whatever the state of the pool.
use llm_rate_limit_proxy.Base.{
  ℕ, ◌≡◌, ◌≢◌, refl, ap, ◌∙◌, arith, false, List, [], ◌∷◌, Option, none, some, Text, In, Result, ok,
  err, get_elem?, set,
}
use llm_rate_limit_proxy.Config.{Protocol}
use llm_rate_limit_proxy.Pool.Lane
use llm_rate_limit_proxy.Pool.Lane.{Lane}
use llm_rate_limit_proxy.Pool.Lanes.{Pool}
use llm_rate_limit_proxy.Dispatch.{
  Query, roomy, passed_over, visit, visit_saturated, Summary, Outcome, granted, no_lane, sleep,
  permit_of, Permit, choose, no_choice, settle, take_slot, attempt, scan, done, acquire_for, Round,
  follow,
}
use llm_rate_limit_proxy.Dispatch.Match.{passed_over-IsMatch}
use llm_rate_limit_proxy.Dispatch.Scan.{scan-room, get_elem?-scan_zero, At-found}
use llm_rate_limit_proxy.Dispatch.Grant.{choose-In}

-- Of the provider and the protocol that are asked for, and of a lane that is not excluded.
pub record Fits (q : Query) (permit : Permit) : Type 0 where
  pub provider : (name : Text) → q.provider ≡ some name → permit.provider ≡ name
  pub protocol : (w : Protocol) → q.protocol ≡ some w → permit.protocol ≡ w
  pub untried : (i : ℕ) → In i q.exclude → i ≢ permit.lane_idx

no_choice-refuses : (p : Pool) (s : Summary) (permit : Permit) → (no_choice p s).1 ≢ granted permit
unfolding no_choice
no_choice-refuses p s permit h = absurd (ground arith)

take_slot-permit :
    (p : Pool) (s : Summary) (idx : ℕ) (l : Lane) (r : Lane × Result (Unit {0}) ℕ) {permit : Permit}
    → (take_slot p s idx l r).1 ≡ granted permit
    → permit ≡ permit_of idx l
unfolding take_slot
take_slot-permit p s idx l (l', ok u) h = ground arith
take_slot-permit p s idx l (l', err t) {permit} h =
    absurd (no_choice-refuses (record p { lanes = set p.lanes idx l' }) s permit h)

-- A permit is for the lane that was chosen.
settle-permit :
    (p : Pool) (s : Summary) (now : ℕ) (o : Option ℕ) {permit : Permit}
    → (settle p s now o).1 ≡ granted permit
    → (idx : ℕ) × (l : Lane) × (o ≡ some idx)
      × (get_elem? p.lanes idx ≡ some l)
      × (permit ≡ permit_of idx l)
unfolding settle
settle-permit p s now none {permit} h = absurd (no_choice-refuses p s permit h)
settle-permit p s now (some idx) {permit} h = go (get_elem? p.lanes idx) refl h
  where
    go :
        (g : Option Lane)
        → get_elem? p.lanes idx ≡ g
        → (elim g as (λ _. Pool × Outcome) [
          | none ↦ no_choice p s
          | some l ↦ take_slot p s idx l (Lane.try_acquire l now)
        ]).1
          ≡ granted permit
        → (i : ℕ) × (l : Lane) × (some idx ≡ some i)
          × (get_elem? p.lanes i ≡ some l)
          × (permit ≡ permit_of i l)
    go none e x = absurd (no_choice-refuses p s permit x)
    go (some l) e x = (idx, l, refl, e, take_slot-permit p s idx l (Lane.try_acquire l now) x)

visit-same :
    (q : Query) (now idx : ℕ) (l : Lane)
    → ((visit q now idx l).0.provider ≡ l.provider) × ((visit q now idx l).0.protocol ≡ l.protocol)
unfolding visit visit_saturated Lane.load Lane.try_acquire
visit-same q now idx l = ground arith

roomy-matches :
    (q : Query) (now idx n : ℕ) (l : Lane)
    → (visit q now idx l).1 ≡ roomy n
    → passed_over q idx l ≡ false
unfolding visit visit_saturated
roomy-matches q now idx n l h = ground arith

module _ (hash : ℕ → Text → Text → ℕ) where
  attempt-Fits :
      (q : Query) (now : ℕ) (p : Pool) {permit : Permit}
      → (attempt hash q now p).1 ≡ granted permit
      → Fits q permit
  unfolding attempt
  attempt-Fits q now p {permit} h =
      let scanned = scan q now 0 p.lanes in
      let p' : Pool = record p { lanes = scanned.0 } in
      let (idx, l, chosen, at, e) =
        settle-permit p' scanned.1 now (choose hash q p' scanned.1.with_room) h in
      let (n, m) = choose-In hash q p' scanned.1.with_room chosen in
      let (a, v) = scan-room q now 0 p.lanes m in
      let before = get_elem?-scan_zero q now p.lanes idx (At-found q now p.lanes a) in
      let same_lane : (visit q now idx a.lane).0 ≡ l = ground (arith, before, at) in
      let match = passed_over-IsMatch q idx a.lane (roomy-matches q now idx n a.lane v) in
      let (sp, sw) = visit-same q now idx a.lane in
      record {
        provider = λ name eq. ground (arith, match.provider name eq);
        protocol = λ w eq. ground (arith, match.protocol w eq);
        untried = λ i m' eq. match.untried i m' (ground arith);
      }

  pub acquire_for-Fits :
      (q : Query) (rs : List Round) (p : Pool) {permit : Permit}
      → (acquire_for hash q rs p).1 ≡ done (some permit)
      → Fits q permit
  unfolding acquire_for
  acquire_for-Fits q [] p h = absurd (ground arith)
  acquire_for-Fits q (r ∷ rs) p {permit} h =
      go (attempt hash q r.now (r.meanwhile p)) refl h (λ p' h'. acquire_for-Fits q rs p' h')
    where
      go :
          (x : Pool × Outcome)
          → attempt hash q r.now (r.meanwhile p) ≡ x
          → (follow x (acquire_for hash q rs)).1 ≡ done (some permit)
          → ((p' : Pool) → (acquire_for hash q rs p').1 ≡ done (some permit) → Fits q permit)
          → Fits q permit
      go (p', granted g) e h' again =
          let same_permit : g ≡ permit = ground arith in
          attempt-Fits q r.now (r.meanwhile p)
            (ap (λ (x : Pool × Outcome). x.1) e ∙ ap granted same_permit)
      go (p', no_lane) e h' again = absurd (ground arith)
      go (p', sleep t) e h' again = again p' h'
