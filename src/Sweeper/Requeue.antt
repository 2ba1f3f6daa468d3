-- ===== src/Sweeper/Requeue.antt =====
-- The requeue at startup (`requeue_all_unfinished` of src/shadow_proxy/sweeper.py).
use mathlib.Core.Option
use mathlib.Core.List.{append_assoc, append-nil}
use llm_shadow_proxy.Base.{
  ℕ, zero, suc, ◌≡◌, refl, some, Option-cases, List, [], ◌∷◌, ◌++◌, map, inl, inr, arith, ap, ◌∙◌,
  length, take, take_all, Bool-cases, leb, if◌then◌else◌,
}
use llm_shadow_proxy.Base.Text.{Text}
use llm_shadow_proxy.Store.{Table}
use llm_shadow_proxy.Store.Queries.{Engine, find_all_unfinished}
use llm_shadow_proxy.Dispatcher.{Dispatcher, CandidateJob, DispatchStatus, drop_new, enqueue, depth}
use llm_shadow_proxy.Dispatcher.Accounting.{IsSound, enqueue-IsSound}
use llm_shadow_proxy.Dispatcher.Overflow.{seen-enqueue}
use llm_shadow_proxy.Sweeper.{enqueue_all, requeue_all_unfinished, requeue_limit}

abbrev pub jobs : List Text → List CandidateJob
jobs = map (λ i. record { request_id = i })

take-append_full : (n : ℕ) (xs ys : List CandidateJob) → length xs ≡ n → take n (xs ++ ys) ≡ xs
take-append_full zero [] ys h = refl
take-append_full zero (x ∷ xs) ys h = absurd (omega arith)
take-append_full (suc n) [] ys h = absurd (omega arith)
take-append_full (suc n) (x ∷ xs) ys h = cc (take-append_full n xs ys (omega arith))

-- One `enqueue` under `drop_new`.
record Put (job : CandidateJob) (d d' : Dispatcher) : Type 0 where
  sound : IsSound d'
  keeps_policy : d'.policy ≡ drop_new
  keeps_maxsize : d'.queue.maxsize ≡ d.queue.maxsize
  items :
      d'.queue.items
      ≡ (if leb d.queue.maxsize (depth d) then d.queue.items else d.queue.items ++ job ∷ [])

enqueue-Put :
    (job : CandidateJob) (d : Dispatcher)
    → IsSound d
    → d.policy ≡ drop_new
    → (d' : Dispatcher) × (s : DispatchStatus) × (enqueue job d ≡ some (d', s)) × Put job d d'
enqueue-Put job d h p = elim (Option-cases (enqueue job d)) [
  | inl raised ↦ absurd (ground (arith, seen-enqueue job d h))
  | inr ((d', s), e) ↦ (
    d',
    s,
    e,
    record {
      sound = enqueue-IsSound job d h e;
      keeps_policy = ground (arith, seen-enqueue job d h);
      keeps_maxsize = ground (arith, seen-enqueue job d h);
      items = ground (arith, seen-enqueue job d h);
    },
  )
]

take-Put :
    (job : CandidateJob) (js : List CandidateJob) (d d' : Dispatcher)
    → IsSound d
    → Put job d d'
    → take d'.queue.maxsize (d'.queue.items ++ js)
      ≡ take d.queue.maxsize (d.queue.items ++ job ∷ js)
take-Put job js d d' h put = elim (Bool-cases (leb d.queue.maxsize (depth d))) [
  | inl full ↦
      let same : d'.queue.items ≡ d.queue.items = put.items ∙ rw full in
      let exact : depth d ≡ d.queue.maxsize = ground arith in
      rw (
        put.keeps_maxsize,
        same,
        take-append_full d.queue.maxsize d.queue.items js exact,
        take-append_full d.queue.maxsize d.queue.items (job ∷ js) exact,
      )
  | inr room ↦
      let grown : d'.queue.items ≡ d.queue.items ++ job ∷ [] = put.items ∙ rw room in
      rw (put.keeps_maxsize, grown, append_assoc)
]

-- Under `drop_new` the queue keeps the jobs that came first, up to its capacity.
enqueue_all-take :
    (ids : List Text) (d : Dispatcher)
    → IsSound d
    → d.policy ≡ drop_new
    → Option.map (λ d'. d'.queue.items) (enqueue_all ids d)
      ≡ some (take d.queue.maxsize (d.queue.items ++ jobs ids))
unfolding enqueue_all
enqueue_all-take [] d h p =
    rw (append-nil d.queue.items, take_all d.queue.maxsize d.queue.items h.within)
enqueue_all-take (i ∷ ids) d h p =
    let (d', s, e, put) = enqueue-Put (record { request_id = i }) d h p in
    rw (e, enqueue_all)
      (enqueue_all-take ids d' put.sound put.keeps_policy
        ∙ ap some (take-Put (record { request_id = i }) (jobs ids) d d' h put))

abbrev pub queued_and_count : Dispatcher × ℕ → List CandidateJob × ℕ
queued_and_count (d, n) = (d.queue.items, n)

-- On a sound dispatcher under `drop_new` the requeue at startup raises nothing. The queue then holds
-- its old jobs and those of the rows that `find_all_unfinished` returns, in that order, cut off at its
-- capacity. The number returned is that of all the rows found, those whose jobs were cut off included.
pub requeue_all_unfinished_lem :
    (db : Engine) (rows : Table) (d : Dispatcher)
    → IsSound d
    → d.policy ≡ drop_new
    → let ids = find_all_unfinished db requeue_limit rows in
      Option.map queued_and_count (requeue_all_unfinished db rows d)
      ≡ some (take d.queue.maxsize (d.queue.items ++ jobs ids), length ids)
unfolding requeue_all_unfinished
requeue_all_unfinished_lem db rows d h p =
    let ids = find_all_unfinished db requeue_limit rows in
    elim (Option-cases (enqueue_all ids d)) [
      | inl raised ↦ absurd (ground (arith, enqueue_all-take ids d h p))
      | inr (d', e) ↦ rw (e, requeue_all_unfinished) (ground (arith, enqueue_all-take ids d h p))
    ]
