-- ===== src/Tape/Offers.antt =====
-- What the mismatch tape keeps (`offer` and `_writer_loop` of
-- src/shadow_proxy/store/mismatch_tape.py).
use mathlib.Core.List.{tail, append_assoc, append-nil}
use llm_shadow_proxy.Base.{
  ℕ, suc, ◌-◌, ◌≤◌, ◌<◌, ◌≡◌, true, Option, some, List, [], ◌∷◌, ◌++◌, map, arith, ap, sym, ◌∙◌,
  length, length-append, drop, leb, if◌then◌else◌, Bool-cases, inl, inr,
}
use llm_shadow_proxy.Queue
use llm_shadow_proxy.Queue.{Queue, put_nowait, get_nowait}
use llm_shadow_proxy.Tape.{TapeRow, MismatchTape, offer}

-- The queue is bounded and within its bound.
pub record IsBounded (t : MismatchTape) : Type 0 where
  pub bounded : 0 < t.queue.maxsize
  pub within : Queue.qsize t.queue ≤ t.queue.maxsize

pub offer_lem :
    (row : TapeRow) (t : MismatchTape)
    → IsBounded t
    → ((offer row t).1 ≡ true)
      × IsBounded (offer row t).0
      × ((offer row t).0.queue.items ≡ (
          if leb t.queue.maxsize (Queue.qsize t.queue)
          then tail t.queue.items ++ some row ∷ []
          else t.queue.items ++ some row ∷ []))
      × ((offer row t).0.queue.maxsize ≡ t.queue.maxsize)
unfolding offer put_nowait get_nowait
offer_lem row t h = ground (
  arith,
  length-append t.queue.items (some row ∷ []),
  length-append (tail t.queue.items) (some row ∷ []),
)

-- The rows that are offered one after the other.
pub offer_all : List TapeRow → MismatchTape → MismatchTape
offer_all [] t = t
offer_all (row ∷ rows) t = offer_all rows (offer row t).0

-- The last entries of a list, as many as there is room for.
abbrev pub latest : ℕ → List (Option TapeRow) → List (Option TapeRow)
latest n xs = drop (length xs - n) xs

latest-all : (n : ℕ) (xs : List (Option TapeRow)) → length xs ≤ n → latest n xs ≡ xs
latest-all n xs h = let none_over : length xs - n ≡ 0 = omega arith in rw none_over

latest-tail :
    (n : ℕ) (x : Option TapeRow) (xs : List (Option TapeRow))
    → n ≤ length xs
    → latest n (x ∷ xs) ≡ latest n xs
latest-tail n x xs h =
    let one_more : suc (length xs) - n ≡ suc (length xs - n) = omega arith in rw one_more

latest-evict :
    (n : ℕ) (items : List (Option TapeRow)) (e : Option TapeRow) (rest : List (Option TapeRow))
    → 0 < n
    → n ≤ length items
    → latest n ((tail items ++ e ∷ []) ++ rest) ≡ latest n (items ++ e ∷ rest)
latest-evict n [] e rest pos h = absurd (omega arith)
latest-evict n (x ∷ xs) e rest pos h =
    ap (latest n) (append_assoc xs (e ∷ []) rest)
    ∙ sym (latest-tail n x (xs ++ e ∷ rest) (omega (arith, length-append xs (e ∷ rest))))

offered-latest :
    (n : ℕ) (items : List (Option TapeRow)) (e : Option TapeRow) (rest : List (Option TapeRow))
    → 0 < n
    → latest n ((if leb n (length items) then tail items ++ e ∷ [] else items ++ e ∷ []) ++ rest)
      ≡ latest n (items ++ e ∷ rest)
offered-latest n items e rest pos = elim (Bool-cases (leb n (length items))) [
  | inl full ↦ rw full (latest-evict n items e rest pos (ground arith))
  | inr room ↦ rw room (ap (latest n) (append_assoc items (e ∷ []) rest))
]

-- After any number of offers to a tape whose queue is bounded and within its bound, the queue holds the
-- most recent entries in their order, as many as it has room for.
pub offer_all-latest :
    (rows : List TapeRow) (t : MismatchTape)
    → IsBounded t
    → (offer_all rows t).queue.items ≡ latest t.queue.maxsize (t.queue.items ++ map some rows)
unfolding offer_all
offer_all-latest [] t h =
    rw (append-nil t.queue.items) (sym (latest-all t.queue.maxsize t.queue.items h.within))
offer_all-latest (row ∷ rows) t h =
    let (_, bounded, items, same) = offer_lem row t h in
    offer_all-latest rows (offer row t).0 bounded
    ∙ rw (items, same)
        (offered-latest t.queue.maxsize t.queue.items (some row) (map some rows) h.bounded)
