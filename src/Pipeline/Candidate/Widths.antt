-- ===== src/Pipeline/Candidate/Widths.antt =====
-- The columns that the writes of src/shadow_proxy/pipeline.py and sweeper.py fill, against their widths.
use llm_shadow_proxy.Base.{ℕ, ◌≤◌, ◌≡◌, ◌↔◌, zero, suc, true, [], ◌∷◌, arith, take, length}
use llm_shadow_proxy.Base.Text.{Text}
use llm_shadow_proxy.Evaluator.{EvaluationResult}
use llm_shadow_proxy.Store.Rows.{ComparisonRow, mark_columns, finalize_columns}
use llm_shadow_proxy.Store.Rows.Widths.{
  fits, within_or_null, mark_columns-fits, finalize_columns-fits,
}
use llm_shadow_proxy.Sweeper.{stale_patch}
use llm_shadow_proxy.Pipeline.World.{CallOutcome}
use llm_shadow_proxy.Pipeline.Payloads.{Surroundings}
use llm_shadow_proxy.Pipeline.Candidate.{error_patch, primary_error_patch, result_patch}

length-take_bounded : (n : ℕ) (text : Text) → length (take n text) ≤ n
length-take_bounded zero text = omega arith
length-take_bounded (suc n) [] = omega arith
length-take_bounded (suc n) (c ∷ text) = omega (arith, length-take_bounded n text)

-- On a row whose columns are all within their widths: the mark in progress, the patches of a failed call
-- whatever its error says, of a failed primary call, and of a stale row keep them so; the patch of an
-- answered call does exactly if the candidate's action has at most 256 characters.
pub fits_lem :
    (row : ComparisonRow) (now : ℕ) (env : Surroundings) (outcome : CallOutcome) (error : Text)
    (result : EvaluationResult)
    → fits row ≡ true
    → (fits (mark_columns now row) ≡ true)
      × (fits (finalize_columns now (error_patch env outcome error) row) ≡ true)
      × (fits (finalize_columns now (primary_error_patch now) row) ≡ true)
      × (fits (finalize_columns now (stale_patch now) row) ≡ true)
      × ((fits (finalize_columns now (result_patch env result) row) ≡ true)
          ↔ (within_or_null 256 result.candidate_action ≡ true))
fits_lem row now env outcome error result h = (
  mark_columns-fits now row h,
  ground (
    arith,
    finalize_columns-fits now (error_patch env outcome error) row h,
    length-take_bounded 1000 error,
  ),
  ground (arith, finalize_columns-fits now (primary_error_patch now) row h),
  ground (arith, finalize_columns-fits now (stale_patch now) row h),
  ground (arith, finalize_columns-fits now (result_patch env result) row h),
)
