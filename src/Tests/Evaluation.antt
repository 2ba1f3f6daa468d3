-- ===== src/Tests/Evaluation.antt =====
-- The comparator on concrete answers.
use llm_shadow_proxy.Base.{◌≡◌, refl, ◌↔◌, ◌⊎◌, true, []}
use llm_shadow_proxy.Base.Text.{Text, codes, is_space, lstrip, rstrip, behind}
use llm_shadow_proxy.Evaluator.{
  match, invalid_json, evaluate, parse, is_failed, strip_code_fence, fence_match,
}
use llm_shadow_proxy.Evaluator.Verdicts.{Agree, evaluate_lem}
use llm_shadow_proxy.Evaluator.Fence.{fenced, IsBare, strip_code_fence-fenced}
use llm_shadow_proxy.Tests.{python, evaluator}

abbrev go : Text
go = codes "GO"

go-IsBare : IsBare go
unfolding fence_match lstrip rstrip is_space behind
go-IsBare = ((refl, refl), refl)

strip_code_fence-fenced_example : strip_code_fence (fenced go) ≡ go
strip_code_fence-fenced_example = strip_code_fence-fenced go go-IsBare.0

evaluate_lem_example :
    (((evaluate python evaluator go []).verdict ≡ match)
      ↔ Agree python evaluator (parse python go) (parse python []))
    × (((evaluate python evaluator go []).verdict ≡ invalid_json) ↔ (
        (true ≡ true)
        × ((is_failed (parse python go) ≡ true) ⊎ (is_failed (parse python []) ≡ true))))
    × ((evaluate python evaluator go []).verdict ≡ (evaluate python evaluator [] go).verdict)
evaluate_lem_example = evaluate_lem python evaluator go []
