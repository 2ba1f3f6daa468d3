-- ===== src/Llm/DoInference/Retries.antt =====
-- How often the client asks, and whose result it returns (`chat_completions` of
-- src/shadow_proxy/llm/do_inference.py).
use llm_shadow_proxy.Base.{ℕ, zero, suc, ◌+◌, ◌^◌, ◌≡◌, if◌then◌else◌}
use llm_shadow_proxy.Llm.DoInference.{Outside, Post, conclude, is_retried, Call}

-- The first round, counted from `n`, whose post is not retried; after `k` more rounds it is the last.
abbrev pub deciding : (ℕ → Post) → ℕ → ℕ → ℕ
deciding post zero n = n
deciding post (suc k) n =
    let later = deciding post k (n + 1) in if is_retried (post n) then later else n

abbrev Decided : Outside → (ℕ → Post) → ℕ → ℕ → ℕ → Call → Type 0
Decided out post k n slept c =
    (c.answer ≡ conclude out (post (deciding post k n)))
    × (c.posts ≡ deciding post k n + 1)
    × (c.slept + 2 ^ n ≡ slept + 2 ^ deciding post k n)
