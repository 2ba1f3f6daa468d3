-- ===== src/Pipeline/World.antt =====
-- What the pipeline's functions read and write (src/shadow_proxy/pipeline.py and main.py): the
-- table, the archive, the tape, the business counters of `rt_counters`, and the metrics.
use llm_shadow_proxy.Base.{ℕ, Option, List, ◌∷◌}
use llm_shadow_proxy.Base.Text.{Text}
use llm_shadow_proxy.Evaluator.{Verdict}
use llm_shadow_proxy.Store.{Table}
use llm_shadow_proxy.Raw.{Files}
use llm_shadow_proxy.Tape.{MismatchTape}

-- `rt_counters`, by the keys of `_new_counters`.
pub record Counters : Type 0 where
  pub requests_total : ℕ
  pub requests_success : ℕ
  pub requests_error : ℕ
  pub shadow_enqueued : ℕ
  pub shadow_sampled_out : ℕ
  pub shadow_errors : ℕ
  pub shadow_timeouts : ℕ
  pub verdict_match : ℕ
  pub verdict_mismatch : ℕ
  pub verdict_invalid_json : ℕ

abbrev pub new_counters : Counters
new_counters = record {
  requests_total = 0;
  requests_success = 0;
  requests_error = 0;
  shadow_enqueued = 0;
  shadow_sampled_out = 0;
  shadow_errors = 0;
  shadow_timeouts = 0;
  verdict_match = 0;
  verdict_mismatch = 0;
  verdict_invalid_json = 0;
}

-- The label `outcome` of the latency histograms.
pub data CallOutcome : Type 0 where
  ok error timeout : CallOutcome

-- The label `op` of the counter of store failures.
pub data StoreOp : Type 0 where
  raw_put raw_get insert_pending : StoreOp

-- One write to the Prometheus registry.
pub data Metric : Type 0 where
  primary_latency candidate_latency : Text → Text → CallOutcome → ℕ → Metric
  verdicts_total : Text → Verdict → Metric
  store_failures_total : StoreOp → Metric
  requests_total : Text → ℕ → Metric

-- `raw` and `tape` are `none` where the program has `None`. The newest metric stands first.
pub record World : Type 0 where
  pub rows : Table
  pub raw : Option Files
  pub tape : Option MismatchTape
  pub counters : Counters
  pub metrics : List Metric

-- What a function did: it returned, or an exception left it. What was written stays written.
pub data Ending : Type 0 where
  returned raised : Ending

abbrev pub observe : Metric → World → World
observe m w = record w { metrics = m ∷ w.metrics }
