-- ===== src/Tests/Records.antt =====
-- Object keys, rows, posted requests and the printed configuration on concrete data.
use llm_shadow_proxy.Base.{◌≡◌, refl, ◌↔◌, true, none, some, List, [], ◌∷◌, ◌++◌, length}
use llm_shadow_proxy.Base.Text.{Text, codes, text_eq}
use llm_shadow_proxy.Base.Json.{obj, end}
use llm_shadow_proxy.Evaluator.{EvaluationResult, mismatch}
use llm_shadow_proxy.Store.{
  PrimaryStatus, FinalizePatch, Table, pending_row, insert_pending, mark_in_progress, finalize, get,
}
use llm_shadow_proxy.Store.Rows.{
  ComparisonRow, new_row, mark_columns, finalize_columns, by_value, to_record,
}
use llm_shadow_proxy.Store.Rows.Tables.{add_row, update_rows, read_row, read_all}
use llm_shadow_proxy.Store.Rows.Agreement.{read_after, read_all_lem}
use llm_shadow_proxy.Store.Rows.Widths.{fits, submission_fits, within_or_null}
use llm_shadow_proxy.Sweeper.{stale_patch}
use llm_shadow_proxy.Raw.{key_for, suffix}
use llm_shadow_proxy.Raw.Places.{Place, target, up, climbing, day_dir, dated, target-key_for}
use llm_shadow_proxy.Pipeline.World.{CallOutcome}
use llm_shadow_proxy.Pipeline.Candidate.{error_patch, primary_error_patch, result_patch}
use llm_shadow_proxy.Pipeline.Candidate.Widths.{fits_lem}
use llm_shadow_proxy.Settings.{Settings}
use llm_shadow_proxy.Evaluations.Config.{ConfigDump, get_runtime_config, get_runtime_config_iff}
use llm_shadow_proxy.Llm.{crashed}
use llm_shadow_proxy.Tests.{submitted, failed_primary, answering}
use llm_shadow_proxy.Tests.Startup.{settings}

-- The archive's root, and a name of a file that a request id with `../` five times reaches.
abbrev root : Place
root = codes "data" ∷ codes "app" ∷ []

abbrev year : Text
year = codes "2026"

abbrev month : Text
month = codes "01"

target-key_for_example :
    target root (key_for (dated year month month) (climbing 5 (codes "x")))
    ≡ (codes "x" ++ suffix) ∷ up 5 (day_dir year month month root)
unfolding text_eq
target-key_for_example = target-key_for root year month month 5 (codes "x") refl refl refl refl

abbrev stored : List ComparisonRow
stored = new_row (submitted (codes "a") PrimaryStatus.ok none) ∷ new_row failed_primary ∷ []

abbrev records : Table
records =
    pending_row (submitted (codes "a") PrimaryStatus.ok none) ∷ pending_row failed_primary ∷ []

stored-reads : read_all stored ≡ some records
unfolding read_all to_record by_value text_eq new_row pending_row
stored-reads = refl

abbrev patch : FinalizePatch
patch = stale_patch 50

read_all_lem_example :
    (read_after (add_row failed_primary stored) ≡ some (insert_pending failed_primary records))
    × (read_all (update_rows (codes "a") (mark_columns 50) stored)
        ≡ some (mark_in_progress 50 (codes "a") records))
    × (read_all (update_rows (codes "a") (finalize_columns 50 patch) stored)
        ≡ some (finalize 50 (codes "a") patch records))
    × (read_row (codes "a") stored ≡ some (get (codes "a") records))
read_all_lem_example = read_all_lem stored records failed_primary 50 patch (codes "a") stored-reads

abbrev row : ComparisonRow
row = new_row failed_primary

row-fits : fits row ≡ true
unfolding fits submission_fits new_row
row-fits = refl

abbrev result : EvaluationResult
result = record {
  verdict = mismatch;
  reasons = [];
  primary_action = none;
  candidate_action = some (codes "go");
}

fits_lem_example :
    (fits (mark_columns 50 row) ≡ true)
    × (fits
          (finalize_columns 50 (error_patch (answering crashed) CallOutcome.error (codes "e")) row)
        ≡ true)
    × (fits (finalize_columns 50 (primary_error_patch 50) row) ≡ true)
    × (fits (finalize_columns 50 (stale_patch 50) row) ≡ true)
    × ((fits (finalize_columns 50 (result_patch (answering crashed) result) row) ≡ true)
        ↔ (within_or_null 256 result.candidate_action ≡ true))
fits_lem_example = fits_lem row 50 (answering crashed) CallOutcome.error (codes "e") result row-fits

abbrev dump : ConfigDump
dump = record { routes = []; evaluator = obj end; dispatcher = obj end; store = obj end }

abbrev keyless : Settings
keyless = record settings { do_inference_api_key = [] }

get_runtime_config_iff_example :
    (get_runtime_config dump none (codes "u") settings
      ≡ get_runtime_config dump none (codes "u") keyless)
    ↔ (length settings.do_inference_api_key ≡ length keyless.do_inference_api_key)
get_runtime_config_iff_example = get_runtime_config_iff dump none (codes "u") settings keyless
