-- ===== src/Proxy/Walk/Admitted.antt =====
-- The governor's permits in flight, as the calls of src/proxy.rs change them.
use llm_rate_limit_proxy.Base.{
  ℕ, suc, ◌+◌, ◌-◌, ◌≡◌, ap, subst, ◌∙◌, arith, Bool, true, false, List, [], ◌∷◌, Option, Text, leb,
  if◌then◌else◌, ◌&&◌, is_some_and, same, All, on_if,
}
use llm_rate_limit_proxy.Proxy.Admission.{Poll, Admission, admitted, gave_up, admit_model}
use llm_rate_limit_proxy.Governor.{
  Governor, note_rebuff, limit, admit, admit_with, drop_permit, inflight,
}
use llm_rate_limit_proxy.Governor.Calls.{rebuffed, asked, entered, dropped, apply}
use llm_rate_limit_proxy.Governor.Permits.{held_after, inflight-apply}
use llm_rate_limit_proxy.Proxy.Admission.{governor_poll}

-- The permits of `model` after an admission that asked for one of `asked_for`.
abbrev pub after_asking : Text → Text → Bool → ℕ → ℕ
after_asking asked_for model granted n = if same asked_for model && granted then suc n else n

pub inflight-note_rebuff :
    (model m : Text) (lane now : ℕ) (g : Governor)
    → inflight model (note_rebuff m lane now g) ≡ inflight model g
unfolding apply held_after
inflight-note_rebuff model m lane now g = inflight-apply model (rebuffed m lane now) g

pub inflight-drop_permit :
    (model m : Text) (g : Governor)
    → inflight model (drop_permit m g)
      ≡ (if same m model then inflight model g - 1 else inflight model g)
unfolding apply held_after
inflight-drop_permit model m g = inflight-apply model (dropped m) g

inflight-admit :
    (model m : Text) (now : ℕ) (g : Governor)
    → inflight model (admit m now g).0 ≡ after_asking m model (admit m now g).1 (inflight model g)
unfolding admit apply held_after
inflight-admit model m now g =
    inflight-apply model (entered (limit m now g).1 m) (limit m now g).0
    ∙ ap (after_asking m model (admit_with (limit m now g).1 m (limit m now g).0).1)
        (inflight-apply model (asked m now) g)

unfoldable pub is_admitted : Admission → Bool
is_admitted admitted = true
is_admitted gave_up = false
is_admitted Admission.waiting = false

-- What others do between two polls leaves the count as it was, since they give back what they take.
abbrev pub IsEven : Text → (Governor → Governor) → Type 0
IsEven model f = (g : Governor) → inflight model (f g) ≡ inflight model g

unfoldable pub IsAsked : Text → Text → ℕ → Governor × Admission → Type 0
unfolding is_admitted
IsAsked m model n x = inflight model x.0 ≡ after_asking m model (is_admitted x.1) n

pub admit_model-IsAsked :
    (model m : Text) (deadline : Option ℕ) (ps : List Poll) (g : Governor)
    → All (λ (p : Poll). IsEven model p.meanwhile) ps
    → IsAsked m model (inflight model g) (admit_model m deadline ps g)
unfolding admit_model
admit_model-IsAsked model m deadline [] g h = unfold IsAsked in ground arith
admit_model-IsAsked model m deadline (p ∷ ps) g h =
    let tried = admit m p.now (p.meanwhile g) in
    let P = IsAsked m model (inflight model g) in
    let asked_e : inflight model tried.0 ≡ after_asking m model tried.1 (inflight model g) =
      inflight-admit model m p.now (p.meanwhile g) ∙ ap (after_asking m model tried.1) (h.0 g) in
    let rest = admit_model m deadline ps tried.0 in
    let refused : tried.1 ≡ false → inflight model tried.0 ≡ inflight model g = λ e. ground arith in
    let gone : tried.1 ≡ false → P (tried.0, gave_up) = λ e. unfold IsAsked in ground arith in
    on_if P tried.1 (tried.0, admitted) _ (λ e. unfold IsAsked in ground arith)
      (λ e.
        on_if P (is_some_and deadline (λ d. leb d (p.checked + governor_poll))) (tried.0, gave_up) _
          (λ _. gone e)
          (λ _.
            on_if P p.alive rest (tried.0, gave_up)
              (λ _.
                subst (λ n. IsAsked m model n rest) (refused e)
                  (admit_model-IsAsked model m deadline ps tried.0 h.1))
              (λ _. gone e)))
