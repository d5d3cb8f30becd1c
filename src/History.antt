-- ===== src/History.antt =====
-- src/history.rs: the series of snapshots. The lines of the file that parse are `lines`; whether a write of
-- the file succeeds is a parameter, and its failure goes unnoticed, as in the code.
pub mod Kept
mod Examples
use llm_rate_limit_proxy.Base.{
  ℕ, zero, suc, ◌-◌, ◌*◌, ◌/◌, ◌^◌, Bool, true, false, List, [], ◌∷◌, ◌++◌, max, leb, ◌==◌,
  if◌then◌else◌, ◌&&◌, ◌||◌, length, retain,
}

pub record Snapshot : Type 0 where
  pub t : ℕ
  pub total : ℕ

-- `file` is what the file holds, if there is a path.
pub record History : Type 0 where
  pub has_path : Bool
  pub retention_secs : ℕ
  pub snapshots : List Snapshot
  pub file : List Snapshot

-- No limit, `u64::MAX`, for 0 days.
unfoldable pub retention_of : ℕ → ℕ
retention_of days = if days == 0 then 2 ^ 64 - 1 else days * 86400

unfoldable pub load : Bool → List Snapshot → ℕ → History
load has_path lines retention_days = record {
  has_path = has_path;
  retention_secs = retention_of retention_days;
  snapshots = if has_path then lines else [];
  file = lines;
}

unfoldable pub set_retention_days : ℕ → History → History
unfolding retention_of
set_retention_days days h = record h { retention_secs = retention_of days }

unfoldable pub recent : ℕ → ℕ → Snapshot → Bool
recent retention t s = leb (t - retention) s.t

-- `t.saturating_sub(retention)` is the cutoff.
unfoldable pub append : Bool → ℕ → ℕ → History → History
unfolding recent
append writes t total h =
    let kept =
      retain (recent h.retention_secs t) (h.snapshots ++ record { t = t; total = total } ∷ []) in
    record h { snapshots = kept; file = if h.has_path && writes then kept else h.file }

-- `step_by`: `skip` items to leave out before the next one.
unfoldable pub step_from : ℕ → ℕ → List Snapshot → List Snapshot
step_from skip step [] = []
step_from zero step (s ∷ ss) = s ∷ step_from (step - 1) step ss
step_from (suc skip) step (s ∷ ss) = step_from skip step ss

unfoldable pub downsample : List Snapshot → ℕ → List Snapshot
unfolding step_from
downsample v limit =
    if (limit == 0) || leb (length v) limit then v else step_from 0 (max (length v / limit) 1) v

unfoldable pub between : ℕ → ℕ → Snapshot → Bool
between from to s = leb from s.t && leb s.t to

unfoldable pub range : ℕ → ℕ → ℕ → History → List Snapshot
unfolding between
range from to limit h = downsample (retain (between from to) h.snapshots) limit
