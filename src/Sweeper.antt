-- ===== src/Sweeper.antt =====
-- src/shadow_proxy/sweeper.py: the periodic reconciler, and the requeue at startup.
pub mod Reconcile
pub mod Relabel
pub mod Requeue
pub mod Loop
use llm_shadow_proxy.Base.{
  ℕ, ◌+◌, Bool, true, false, Option, none, some, List, [], ◌∷◌, if◌then◌else◌, length,
}
use llm_shadow_proxy.Base.Text.{Text, codes}
use llm_shadow_proxy.Evaluator.{Verdict}
use llm_shadow_proxy.Store.{FinalizePatch, CandidateStatus, Table, finalize}
use llm_shadow_proxy.Store.Queries.{Engine, find_stale, find_all_unfinished}
use llm_shadow_proxy.Dispatcher.{Dispatcher, enqueue}

-- The patch that `run_once` writes.
abbrev pub stale_patch : ℕ → FinalizePatch
stale_patch now = record {
  candidate_status = CandidateStatus.timeout_stale;
  verdict = Verdict.candidate_error;
  reasons = codes "timeout_stale" ∷ [];
  candidate_latency_ms = none;
  candidate_action = none;
  candidate_error = none;
  evaluated_at = some now;
  attempt_count = 1;
  last_attempted_at = none;
}

-- The loop over the stale ids. The database raises at an id for which `broken` holds; what was
-- written before that stays. The flag says whether the loop came to its end.
unfoldable pub finalize_all : (Text → Bool) → ℕ → List Text → Table → Table × Bool
finalize_all broken now [] rows = (rows, true)
finalize_all broken now (request_id ∷ ids) rows =
    let rest = finalize_all broken now ids (finalize now request_id (stale_patch now) rows) in
    if broken request_id then (rows, false) else rest

-- The table, `sweeper_reconciled_total`, and the result; `none` is an exception that `_run` logs.
pub record Tick : Type 0 where
  pub rows : Table
  pub reconciled_total : ℕ
  pub result : Option ℕ

abbrev pub sweep_limit : ℕ
sweep_limit = 1000

-- `run_once`, where the query reads the clock at `asked` and the loop writes the time `now`.
unfoldable pub run_once : Engine → (Text → Bool) → ℕ → ℕ → ℕ → Table → ℕ → Tick
run_once db broken threshold asked now rows total =
    let stale_ids = find_stale db asked threshold sweep_limit rows in
    let (rows', finished) = finalize_all broken now stale_ids rows in
    if finished
    then record {
      rows = rows';
      reconciled_total = total + length stale_ids;
      result = some (length stale_ids);
    }
    else record { rows = rows'; reconciled_total = total; result = none }

-- `requeue_all_unfinished`: the jobs of a list are enqueued in order, whatever status comes back;
-- `none` is an exception of `enqueue`.
unfoldable pub enqueue_all : List Text → Dispatcher → Option Dispatcher
enqueue_all [] d = some d
enqueue_all (request_id ∷ ids) d = elim (enqueue (record { request_id = request_id }) d) [
  | none ↦ none
  | some (d', _) ↦ enqueue_all ids d'
]

abbrev pub requeue_limit : ℕ
requeue_limit = 10000

unfoldable pub requeue_all_unfinished : Engine → Table → Dispatcher → Option (Dispatcher × ℕ)
requeue_all_unfinished db rows d =
    let ids = find_all_unfinished db requeue_limit rows in
    elim (enqueue_all ids d) [ none ↦ none | some d' ↦ some (d', length ids) ]
