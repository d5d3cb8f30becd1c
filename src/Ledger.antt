-- ===== src/Ledger.antt =====
-- src/ledger.rs: lifetime usage for each model. What the file held, if it parsed, is `stored`; a write that
-- fails goes unnoticed, as in the code, so `file` is what was last written.
mod Totals
use llm_rate_limit_proxy.Base.{
  ℕ, ◌+◌, Bool, true, false, List, [], ◌∷◌, Option, none, some, Text, if◌then◌else◌, unwrap_or,
  ◌&&◌,
}
use llm_rate_limit_proxy.Base.Assoc.{get, insert}

pub record Usage : Type 0 where
  pub requests : ℕ
  pub prompt_tokens : ℕ
  pub completion_tokens : ℕ

abbrev pub no_usage : Usage
no_usage = record { requests = 0; prompt_tokens = 0; completion_tokens = 0 }

unfoldable pub plus : Usage → Usage → Usage
plus a b = record {
  requests = a.requests + b.requests;
  prompt_tokens = a.prompt_tokens + b.prompt_tokens;
  completion_tokens = a.completion_tokens + b.completion_tokens;
}

pub record Ledger : Type 0 where
  pub has_path : Bool
  pub baseline : List (Text × Usage)
  pub live : List (Text × Usage)
  pub file : List (Text × Usage)

unfoldable pub load : Bool → Option (List (Text × Usage)) → Ledger
load has_path stored =
    let kept = unwrap_or stored [] in
    record { has_path = has_path; baseline = kept; live = kept; file = kept }

-- The loop over the counters of this process.
unfoldable pub fold :
    List (Text × Usage) → List (Text × Usage) → List (Text × Usage) → List (Text × Usage)
unfolding plus
fold baseline [] live = live
fold baseline ((model, now) ∷ rest) live =
    fold baseline rest (insert model (plus (unwrap_or (get model baseline) no_usage) now) live)

unfoldable pub absorb : Bool → List (Text × Usage) → Ledger → Ledger
unfolding fold
absorb writes current l =
    let live = fold l.baseline current l.live in
    record l { live = live; file = if l.has_path && writes then live else l.file }
