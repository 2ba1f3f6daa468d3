-- ===== src/Evaluations/Runtime.antt =====
-- The business metrics and the sample rate (`business_metrics` and `put_runtime_config` of
-- src/shadow_proxy/api/v1/evaluations.py).
use llm_shadow_proxy.Base.{ℕ, ◌+◌, ◌*◌, ◌^◌, Option, none, some, leb, if◌then◌else◌}
use llm_shadow_proxy.Pipeline.World.{Counters}
use llm_shadow_proxy.Chat.{App}
use llm_shadow_proxy.Evaluations.{Reply, ok, unprocessable, Ratio, ratio}

-- `MetricsOut`, with the match rate in percent as an exact quotient; the source rounds it to two
-- places.
pub record MetricsOut : Type 0 where
  pub counters : Counters
  pub exact_match_rate_pct : Ratio
  pub shadow_sample_rate : ℕ

unfoldable pub business_metrics : App → MetricsOut
business_metrics app =
    let c = app.world.counters in
    record {
      counters = c;
      exact_match_rate_pct =
          ratio (100 * c.verdict_match)
            (c.verdict_match + (c.verdict_mismatch + c.verdict_invalid_json));
      shadow_sample_rate = app.shadow_sample_rate;
    }

-- A rate of 1.0: every draw lies below it.
abbrev pub full_rate : ℕ
full_rate = 2 ^ 53

-- `put_runtime_config` on the field of its body; the reply shows the current rate.
unfoldable pub put_runtime_config : Option ℕ → App → App × Reply ℕ
put_runtime_config none app = (app, ok app.shadow_sample_rate)
put_runtime_config (some rate) app =
    if leb rate full_rate
    then (record app { shadow_sample_rate = rate }, ok rate)
    else (app, unprocessable)
