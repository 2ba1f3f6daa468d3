-- ===== src/Evaluator/Verdicts.antt =====
-- What the verdicts of `JsonActionEvaluator.evaluate` (src/shadow_proxy/evaluator/json_action.py)
-- mean.
use llm_shadow_proxy.Base.{
  ◌≡◌, refl, ◌↔◌, ◌⊎◌, inl, inr, Bool, true, Option, none, some, Bool-cases, arith, ◌∙◌, List, [],
  ◌∷◌, sym, ◌≢◌, if◌then◌else◌, ◌&&◌, ◌||◌,
}
use llm_shadow_proxy.Base.Text.{Text, codes}
use llm_shadow_proxy.Base.Text.Laws.{text_eq_iff, text_eq_comm}
use llm_shadow_proxy.Base.Json.{Value}
use llm_shadow_proxy.Evaluator.{
  match, invalid_json, Python, JsonActionEvaluator, Parsed, parse, parsed, failed, action_of,
  normalize_value, compare_actions, judge, evaluate, is_failed, json_reason,
}

module _ (py : Python) (e : JsonActionEvaluator) where
  -- Both outputs have a value under the compared key, and the two are equal once normalised.
  abbrev pub Agree : Parsed → Parsed → Type 0
  Agree p c =
      (v w : Value) × (action_of e.compare_key p ≡ some v)
      × (action_of e.compare_key c ≡ some w)
      × (normalize_value py e v ≡ normalize_value py e w)

  compare_actions-match :
      (reasons : List Text) (p c : Option Value)
      → ((compare_actions py e reasons p c).verdict ≡ match) ↔ (
          (v w : Value) × (p ≡ some v)
          × (c ≡ some w)
          × (normalize_value py e v ≡ normalize_value py e w))
  unfolding compare_actions
  compare_actions-match reasons none c = (λ h. cc, λ h. cc)
  compare_actions-match reasons (some v) none = (λ h. cc, λ h. cc)
  compare_actions-match reasons (some v) (some w) = (
    λ h. (
      v,
      w,
      refl,
      refl,
      ground (arith, text_eq_iff (normalize_value py e v) (normalize_value py e w)),
    ),
    λ h. ground (arith, text_eq_iff (normalize_value py e v) (normalize_value py e w)),
  )

  abbrev both_reasons : Parsed → Parsed → List Text
  both_reasons p c = json_reason (codes "primary") p ∷ json_reason (codes "candidate") c ∷ []

  -- Either the outputs are rejected before their actions are looked at, or the actions decide.
  judge-cases :
      (p c : Parsed)
      → (((judge py e p c).verdict ≡ invalid_json)
          × (e.require_json ≡ true)
          × ((is_failed p ≡ true) ⊎ (is_failed c ≡ true)))
        ⊎ (judge py e p c
            ≡ compare_actions py e
                (both_reasons p c)
                (action_of e.compare_key p)
                (action_of e.compare_key c))
  unfolding judge
  judge-cases (parsed v) (parsed w) = inr (ground arith)
  judge-cases (failed v) w = ground arith
  judge-cases (parsed v) (failed w) = ground arith

  judge-match : (p c : Parsed) → ((judge py e p c).verdict ≡ match) ↔ Agree p c
  judge-match p c = elim (judge-cases p c) [
    | inl (invalid, _, unparsed) ↦ (
      λ h. absurd (invalid≢match (sym invalid ∙ h)),
      λ (v, w, a, b, n). absurd (no_action p c unparsed a b),
    )
    | inr actions ↦ rw actions (
        compare_actions-match (both_reasons p c) (action_of e.compare_key p)
          (action_of e.compare_key c))
  ]
    where
      invalid≢match : invalid_json ≢ match
      invalid≢match h = cc

      no_action :
          (p c : Parsed) {v w : Value}
          → (is_failed p ≡ true) ⊎ (is_failed c ≡ true)
          → action_of e.compare_key p ≡ some v
          → action_of e.compare_key c ≡ some w
          → ⊥
      no_action p c unparsed a b = ground arith

  compare_actions-ne-invalid_json :
      (reasons : List Text) (p c : Option Value)
      → (compare_actions py e reasons p c).verdict ≢ invalid_json
  unfolding compare_actions
  compare_actions-ne-invalid_json reasons none c h = cc
  compare_actions-ne-invalid_json reasons (some v) none h = cc
  compare_actions-ne-invalid_json reasons (some v) (some w) h = ground arith

  judge-invalid_json :
      (p c : Parsed)
      → ((judge py e p c).verdict ≡ invalid_json)
        ↔ ((e.require_json ≡ true) × ((is_failed p ≡ true) ⊎ (is_failed c ≡ true)))
  unfolding judge
  judge-invalid_json p c = (
    λ h. elim (judge-cases p c) [
      | inl (_, required, unparsed) ↦ (required, unparsed)
      | inr actions ↦ absurd (
          compare_actions-ne-invalid_json (both_reasons p c) (action_of e.compare_key p)
            (action_of e.compare_key c) (rw actions at h))
    ],
    λ (required, unparsed). rejected p c required unparsed,
  )
    where
      rejected :
          (p c : Parsed)
          → e.require_json ≡ true
          → (is_failed p ≡ true) ⊎ (is_failed c ≡ true)
          → (judge py e p c).verdict ≡ invalid_json
      rejected p c required unparsed = ground arith

  compare_actions_symmetric :
      (reasons reasons' : List Text) (p c : Option Value)
      → (compare_actions py e reasons p c).verdict ≡ (compare_actions py e reasons' c p).verdict
  unfolding compare_actions
  compare_actions_symmetric reasons reasons' none none = refl
  compare_actions_symmetric reasons reasons' none (some w) = refl
  compare_actions_symmetric reasons reasons' (some v) none = refl
  compare_actions_symmetric reasons reasons' (some v) (some w) =
      ground (arith, text_eq_comm (normalize_value py e v) (normalize_value py e w))

  judge_verdict :
      (p c : Parsed)
      → (judge py e p c).verdict ≡ (
          if e.require_json && (is_failed p || is_failed c)
          then invalid_json
          else (compare_actions py e
              (both_reasons p c)
              (action_of e.compare_key p)
              (action_of e.compare_key c)).verdict)
  unfolding judge
  judge_verdict p c = elim (Bool-cases (e.require_json && (is_failed p || is_failed c))) [
    | inl t ↦ rw (t, judge)
    | inr f ↦ rw (f, judge)
  ]

  or_comm : (a b : Bool) → (a || b) ≡ (b || a)
  or_comm a b = ground arith

  judge_symmetric : (p c : Parsed) → (judge py e p c).verdict ≡ (judge py e c p).verdict
  judge_symmetric p c = rw (
    judge_verdict p c,
    judge_verdict c p,
    or_comm (is_failed p) (is_failed c),
    compare_actions_symmetric (both_reasons p c) (both_reasons c p) (action_of e.compare_key p)
        (action_of e.compare_key c),
  )

  -- The verdict is `match` exactly when both outputs have a value under the compared key and the
  -- two values are equal once normalised, whatever `require_json` is.
  evaluate-match_iff :
      (p c : Text) → ((evaluate py e p c).verdict ≡ match) ↔ Agree (parse py p) (parse py c)
  unfolding evaluate
  evaluate-match_iff p c = judge-match (parse py p) (parse py c)

  -- The verdict is `invalid_json` exactly when JSON is required and an output does not parse.
  pub evaluate-invalid_json_iff :
      (p c : Text)
      → ((evaluate py e p c).verdict ≡ invalid_json) ↔ (
          (e.require_json ≡ true)
          × ((is_failed (parse py p) ≡ true) ⊎ (is_failed (parse py c) ≡ true)))
  unfolding evaluate
  evaluate-invalid_json_iff p c = judge-invalid_json (parse py p) (parse py c)

  -- The verdict does not depend on which of the two models is the primary one.
  evaluate_symmetric : (p c : Text) → (evaluate py e p c).verdict ≡ (evaluate py e c p).verdict
  unfolding evaluate
  evaluate_symmetric p c = judge_symmetric (parse py p) (parse py c)

  -- The verdict is `match` exactly when both outputs have a value under the compared key and the two
  -- values are equal once normalised; it is `invalid_json` exactly when JSON is required and an
  -- output does not parse; and it does not depend on which of the two models is the primary one.
  pub evaluate_lem :
      (p c : Text)
      → (((evaluate py e p c).verdict ≡ match) ↔ Agree (parse py p) (parse py c))
        × (((evaluate py e p c).verdict ≡ invalid_json) ↔ (
            (e.require_json ≡ true)
            × ((is_failed (parse py p) ≡ true) ⊎ (is_failed (parse py c) ≡ true))))
        × ((evaluate py e p c).verdict ≡ (evaluate py e c p).verdict)
  evaluate_lem p c = (evaluate-match_iff p c, evaluate-invalid_json_iff p c, evaluate_symmetric p c)
