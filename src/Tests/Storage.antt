-- ===== src/Tests/Storage.antt =====
-- The table, the archive and the tape on concrete rows.
use llm_shadow_proxy.Store.Summary.{Reads, summary, percentile, value}
use llm_shadow_proxy.Store.Journal.{unchanged, inserted}
use llm_shadow_proxy.Store.Summary.Totals.{sum_counts, sum_counts-summary}
use llm_shadow_proxy.Store.Summary.Growth.{percentile_lem}
use llm_shadow_proxy.Base.{ℕ, ◌≤◌, ◌*◌, ◌≡◌, refl, false, none, some, [], ◌∷◌, arith}
use llm_shadow_proxy.Base.Text.{Text, codes, text_eq}
use llm_shadow_proxy.Base.Json.{end, obj}
use llm_shadow_proxy.Evaluator.{Verdict}
use llm_shadow_proxy.Store.{pending_row, insert_pending}
use llm_shadow_proxy.Tape.{TapeRow, MismatchTape}
use llm_shadow_proxy.Tape.Offers.{IsBounded, offer_all, offer_all-latest}
use llm_shadow_proxy.Tests.{database, database-IsComplete, table, archived_row, failed_primary}

abbrev taped : Text → TapeRow
taped request_id = record {
  request_id = request_id;
  finalized_at = 30;
  route = codes "default";
  verdict = Verdict.mismatch;
  primary_model = codes "big";
  candidate_model = codes "small";
  primary_action = none;
  candidate_action = none;
  primary_content = [];
  candidate_content = [];
  primary_latency_ms = 5;
  candidate_latency_ms = 9;
  reasons = [];
  request_body = obj end;
}

abbrev tape : MismatchTape
tape = record {
  queue = record { items = some (taped (codes "a")) ∷ []; maxsize = 2; unfinished = 1 };
  stopped = false;
  written = [];
}

tape-IsBounded : IsBounded tape
tape-IsBounded = ground arith

offer_all-latest_example :
    (offer_all (taped (codes "b") ∷ taped (codes "c") ∷ []) tape).queue.items
    ≡ some (taped (codes "b")) ∷ some (taped (codes "c")) ∷ []
offer_all-latest_example =
    offer_all-latest (taped (codes "b") ∷ taped (codes "c") ∷ []) tape tape-IsBounded

-- The second row, received within the window too, is inserted behind the count.
abbrev reads : Reads
reads = record { counted = archived_row ∷ []; grouped = table; timed = table }

insert-between : insert_pending failed_primary reads.counted ≡ some reads.grouped
unfolding insert_pending text_eq pending_row
insert-between = refl

sum_counts-summary_example :
    let stats = summary database 100 95 reads in
    (sum_counts stats.verdicts ≡ 2) × (stats.total ≡ 1) × (stats.total ≤ sum_counts stats.verdicts)
unfolding pending_row
sum_counts-summary_example =
    sum_counts-summary database 100 95 reads database-IsComplete
      (inserted failed_primary unchanged insert-between)

percentile_lem_example :
    (r : ℕ) × (r' : ℕ) × (percentile (30 ∷ 10 ∷ 20 ∷ []) 50 ≡ value r)
    × (percentile (30 ∷ 10 ∷ 20 ∷ []) 95 ≡ value r')
    × (10 * 100 ≤ r)
    × (r ≤ r')
    × (r' ≤ 30 * 100)
percentile_lem_example =
    percentile_lem (30 ∷ 10 ∷ 20 ∷ []) 50 95 10 30 (omega arith) (omega arith) (omega arith)
      (ground arith)

-- The 95th percentile of 10, 20 and 30 is 29.
percentile_run : percentile (30 ∷ 10 ∷ 20 ∷ []) 95 ≡ value 2900
unfolding percentile
percentile_run = refl
