-- ===== src/Store/Rows/Widths.antt =====
-- The widths of the columns in src/shadow_proxy/store/models.py. PostgreSQL refuses a text that is longer,
-- SQLite takes it.
use llm_shadow_proxy.Base.{ℕ, ◌≡◌, refl, ◌&&◌, true, Bool, Option, none, some, arith, leb, length}
use llm_shadow_proxy.Base.Text.{Text}
use llm_shadow_proxy.Evaluator.{Verdict, verdict_value}
use llm_shadow_proxy.Store.{CandidateStatus, FinalizePatch}
use llm_shadow_proxy.Store.Rows.{
  ComparisonRow, candidate_status_value, mark_columns, finalize_columns,
}

abbrev pub within : ℕ → Text → Bool
within width text = leb (length text) width

abbrev pub within_or_null : ℕ → Option Text → Bool
within_or_null width none = true
within_or_null width (some text) = within width text

-- The columns that are written once.
unfoldable pub submission_fits : ComparisonRow → Bool
submission_fits row =
    within 64 row.request_id
    && within 64 row.route
    && within_or_null 64 row.tenant_id
    && within_or_null 128 row.session_id
    && within 64 row.request_hash
    && within_or_null 256 row.raw_object_key
    && within 128 row.primary_model
    && within 32 row.primary_status
    && within_or_null 256 row.primary_action
    && within_or_null 1024 row.primary_error
    && within 128 row.candidate_model

unfoldable pub fits : ComparisonRow → Bool
fits row =
    submission_fits row
    && within 32 row.candidate_status
    && within_or_null 256 row.candidate_action
    && within_or_null 1024 row.candidate_error
    && within 32 row.verdict

status-within : (s : CandidateStatus) → within 32 (candidate_status_value s) ≡ true
status-within CandidateStatus.pending = refl
status-within CandidateStatus.in_progress = refl
status-within CandidateStatus.ok = refl
status-within CandidateStatus.error = refl
status-within CandidateStatus.timeout_stale = refl
status-within CandidateStatus.dropped = refl

verdict-within : (v : Verdict) → within 32 (verdict_value v) ≡ true
verdict-within Verdict.pending = refl
verdict-within Verdict.match = refl
verdict-within Verdict.mismatch = refl
verdict-within Verdict.invalid_json = refl
verdict-within Verdict.candidate_error = refl
verdict-within Verdict.primary_error = refl

pub mark_columns-fits :
    (now : ℕ) (row : ComparisonRow) → fits row ≡ true → fits (mark_columns now row) ≡ true
unfolding fits submission_fits mark_columns
mark_columns-fits now row h = ground (arith, status-within CandidateStatus.in_progress)

-- What a patch brings in itself.
abbrev pub patch_fits : FinalizePatch → Bool
patch_fits patch =
    within_or_null 256 patch.candidate_action && within_or_null 1024 patch.candidate_error

pub finalize_columns-fits :
    (now : ℕ) (patch : FinalizePatch) (row : ComparisonRow)
    → fits row ≡ true
    → fits (finalize_columns now patch row) ≡ patch_fits patch
unfolding fits submission_fits finalize_columns
finalize_columns-fits now patch row h =
    ground (arith, status-within patch.candidate_status, verdict-within patch.verdict)
