-- ===== src/Proxy/Admission.antt =====
-- `admit_model` of src/proxy.rs: the wait for the governor's permit, as a list of polls.
use llm_rate_limit_proxy.Base.{
  ℕ, ◌+◌, Bool, List, [], ◌∷◌, Option, Text, leb, if◌then◌else◌, is_some_and,
}
use llm_rate_limit_proxy.Governor.{Governor, admit}

abbrev pub governor_poll : ℕ
governor_poll = 250

-- One turn of the loop: what others did to the governor since the last, the times of its two readings of the
-- clock, and whether the client is still there after the sleep.
pub record Poll : Type 0 where
  pub meanwhile : Governor → Governor
  pub now : ℕ
  pub checked : ℕ
  pub alive : Bool

pub data Admission : Type 0 where
  admitted gave_up waiting : Admission

unfoldable pub admit_model : Text → Option ℕ → List Poll → Governor → Governor × Admission
admit_model model deadline [] g = (g, waiting)
admit_model model deadline (p ∷ ps) g =
    let asked = admit model p.now (p.meanwhile g) in
    let rest = admit_model model deadline ps asked.0 in
    if asked.1
    then (asked.0, admitted)
    else if is_some_and deadline (λ d. leb d (p.checked + governor_poll))
    then (asked.0, gave_up)
    else if p.alive
    then rest
    else (asked.0, gave_up)
