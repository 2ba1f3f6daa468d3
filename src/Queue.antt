-- ===== src/Queue.antt =====
-- Python's `asyncio.Queue`, as far as the dispatcher and the mismatch tape use it.
use llm_shadow_proxy.Base.{
  ℕ, ◌+◌, ◌-◌, Bool, ◌&&◌, Option, none, some, List, [], ◌∷◌, ◌++◌, ltb, leb, ◌==◌, if◌then◌else◌,
  length,
}

-- `unfinished` counts the calls of `task_done` that `join` still waits for.
pub record Queue {ℓ} (A : Type ℓ) : Type ℓ where
  pub items : List A
  pub maxsize : ℕ
  pub unfinished : ℕ

module _ {ℓ} {A : Type ℓ} where
  abbrev pub empty : ℕ → Queue A
  empty maxsize = record { items = []; maxsize = maxsize; unfinished = 0 }

  abbrev pub qsize : Queue A → ℕ
  qsize q = length q.items

  -- A `maxsize` of 0 means that there is no bound.
  abbrev pub full : Queue A → Bool
  full q = ltb 0 q.maxsize && leb q.maxsize (qsize q)

  -- `none` is `QueueFull`.
  unfoldable pub put_nowait : A → Queue A → Option (Queue A)
  put_nowait a q =
      if full q
      then none
      else some (record q { items = q.items ++ a ∷ []; unfinished = q.unfinished + 1 })

  -- `none` is `QueueEmpty`.
  unfoldable pub get_nowait : Queue A → Option (A × Queue A)
  get_nowait q = elim q.items [ [] ↦ none | a ∷ rest ↦ some (a, record q { items = rest }) ]

  -- `none` is the `ValueError` of one call too many.
  unfoldable pub task_done : Queue A → Option (Queue A)
  task_done q =
      if q.unfinished == 0 then none else some (record q { unfinished = q.unfinished - 1 })
