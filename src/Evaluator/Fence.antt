-- ===== src/Evaluator/Fence.antt =====
-- Stripping a Markdown fence (`_strip_code_fence` of src/shadow_proxy/evaluator/json_action.py).
use llm_shadow_proxy.Base.{
  ℕ, ◌≡◌, refl, true, false, none, some, [], ◌∷◌, ◌++◌, inl, inr, Bool-cases, arith, ◌∙◌,
}
use llm_shadow_proxy.Base.Text.{Text, codes, is_empty, is_space, lstrip, rstrip, strip}
use llm_shadow_proxy.Base.Text.Laws.{IsTrimmed, is_space-head, rstrip-tail}
use llm_shadow_proxy.Evaluator.{
  fence, closes, fence_body, fence_match, strip_code_fence, parse, Python, evaluate,
  JsonActionEvaluator,
}

-- A line break and the closing fence.
abbrev closing : Text
closing = 10 ∷ fence

-- An answer that a model wrapped in a `json` block.
abbrev pub fenced : Text → Text
fenced body = codes "```json" ++ (10 ∷ (body ++ closing))

lstrip-closing : (s : Text) → is_empty (lstrip (s ++ closing)) ≡ false
unfolding lstrip is_space
lstrip-closing [] = refl
lstrip-closing (c ∷ s) = ground (arith, lstrip-closing s)

closes-space : (c : ℕ) (s : Text) → is_space c ≡ true → closes (c ∷ s) ≡ closes s
unfolding closes
closes-space c s h = rw (h, closes)

-- At a character that is no white space, a fence closes only if nothing stands behind it.
closes-solid : (c : ℕ) (s : Text) → is_space c ≡ false → closes ((c ∷ s) ++ closing) ≡ false
unfolding closes
closes-solid c [] h = ground arith
closes-solid c (d ∷ []) h = ground arith
closes-solid c (d ∷ e ∷ s) h = ground (arith, lstrip-closing s)

-- No closing fence is found before the end of a text that ends with no white space.
closes-body : (c : ℕ) (s : Text) → rstrip (c ∷ s) ≡ c ∷ s → closes ((c ∷ s) ++ closing) ≡ false
unfolding rstrip
closes-body c [] h = closes-solid c [] (ground arith)
closes-body c (d ∷ s) h = elim (Bool-cases (is_space c)) [
  | inr solid ↦ closes-solid c (d ∷ s) solid
  | inl space ↦
      closes-space c ((d ∷ s) ++ closing) space ∙ closes-body d s (rstrip-tail c (d ∷ s) h)
]

fence_body-closing : (b : Text) → rstrip b ≡ b → fence_body (b ++ closing) ≡ some b
unfolding fence_body is_space
fence_body-closing [] h = refl
fence_body-closing (c ∷ s) h =
    ground (arith, closes-body c s h, fence_body-closing s (rstrip-tail c s h))

-- The white space behind the opening fence does not reach into a trimmed body.
fence_body-lstrip : (b : Text) → IsTrimmed b → fence_body (lstrip (10 ∷ (b ++ closing))) ≡ some b
unfolding fence_body lstrip is_space
fence_body-lstrip [] h = refl
fence_body-lstrip (c ∷ s) h =
    let solid : is_space c ≡ false = is_space-head c s h.0 in
    rw (solid, lstrip) (fence_body-closing (c ∷ s) h.1)

fence_match-fenced : (b : Text) → IsTrimmed b → fence_match (fenced b) ≡ some b
unfolding fence_match is_space
fence_match-fenced b h = fence_body-lstrip b h

-- A trimmed text that a model wraps in a `json` block comes back whole, whatever stands in it,
-- other fences included.
pub strip_code_fence-fenced : (b : Text) → IsTrimmed b → strip_code_fence (fenced b) ≡ b
unfolding strip_code_fence
strip_code_fence-fenced b h = rw (fence_match-fenced b h, strip_code_fence)

-- A text that `strip_code_fence` only trims, and that is trimmed.
abbrev pub IsBare : Text → Type 0
IsBare b = IsTrimmed b × (fence_match b ≡ none)

strip_code_fence-bare : (b : Text) → IsBare b → strip_code_fence b ≡ b
unfolding strip strip_code_fence
strip_code_fence-bare b h = rw (h.1, strip_code_fence) (rw (h.0.0) h.0.1)

parse-fenced : (py : Python) (b : Text) → IsBare b → parse py (fenced b) ≡ parse py b
unfolding parse
parse-fenced py b h = rw (strip_code_fence-fenced b h.0, parse) (rw (strip_code_fence-bare b h))

-- Two trimmed answers without a fence of their own get the same verdict, reasons and actions
-- whether or not the models wrapped them in `json` blocks.
pub evaluate-fenced :
    (py : Python) (e : JsonActionEvaluator) (p c : Text)
    → IsBare p
    → IsBare c
    → evaluate py e (fenced p) (fenced c) ≡ evaluate py e p c
unfolding evaluate
evaluate-fenced py e p c hp hc = rw (parse-fenced py p hp, parse-fenced py c hc)
