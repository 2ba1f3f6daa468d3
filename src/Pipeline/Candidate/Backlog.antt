-- ===== src/Pipeline/Candidate/Backlog.antt =====
-- What the handler of src/shadow_proxy/pipeline.py makes of a queue of jobs, one after the other.
use mathlib.Core.Path.{subst}
use llm_shadow_proxy.Base.{
  ℕ, ◌≤◌, ◌≡◌, refl, sym, ◌∙◌, Bool, true, false, not, ◌&&◌, none, Option-cases, Bool-cases, List,
  [], ◌∷◌, inl, inr, arith, any, tally, length, length-select, select, take_all,
}
use llm_shadow_proxy.Base.Text.{Text, text_eq}
use llm_shadow_proxy.Base.Text.Laws.{text_eq_self, text_eq_iff}
use llm_shadow_proxy.Store.{ComparisonRecord, Table, get, has_id, update}
use llm_shadow_proxy.Store.Updates.{KeepsId}
use llm_shadow_proxy.Store.Queries.{Engine, IsComplete, is_unfinished, find_all_unfinished}
use llm_shadow_proxy.Sweeper.Reconcile.{listed, any-select, listed-request_ids, any-positive}
use llm_shadow_proxy.Pipeline.World.{World, Ending, returned, raised}
use llm_shadow_proxy.Pipeline.Payloads.{CandidateHandler, Surroundings}
use llm_shadow_proxy.Pipeline.Candidate.{handle}
use llm_shadow_proxy.Pipeline.Candidate.Settled.{handle-Effect}

abbrev has_returned : Ending → Bool
has_returned returned = true
has_returned raised = false

-- The jobs of a list, each in its own surroundings, and whether all calls returned.
abbrev pub handle_all : CandidateHandler → (Text → Surroundings) → List Text → World → World × Bool
handle_all h envs [] w = (w, true)
handle_all h envs (i ∷ ids) w =
    let (w', e) = handle h (envs i) i w in
    let (w'', fine) = handle_all h envs ids w' in (w'', has_returned e && fine)

-- Is an unfinished row with the key in the table?
abbrev waits : Text → Table → Bool
waits j = any (λ r. is_unfinished r && has_id j r)

waits-update :
    (i j : Text) (f : ComparisonRecord → ComparisonRecord) (rows : Table)
    → KeepsId f
    → ((row : ComparisonRecord) → is_unfinished (f row) ≡ false)
    → waits j (update i f rows) ≡ (not (text_eq j i) && waits j rows)
unfolding update
waits-update i j f [] keeps closes = ground arith
waits-update i j f (row ∷ rows) keeps closes = ground (
  arith,
  keeps row,
  closes row,
  text_eq_iff j i,
  text_eq_iff j row.request_id,
  text_eq_iff i row.request_id,
  waits-update i j f rows keeps closes,
)

waits-missing : (i : Text) (rows : Table) → get i rows ≡ none → waits i rows ≡ false
unfolding get
waits-missing i [] h = refl
waits-missing i (row ∷ rows) h = ground (arith, waits-missing i rows)

handle-missing :
    (h : CandidateHandler) (env : Surroundings) (i : Text) (w : World)
    → get i w.rows ≡ none
    → (handle h env i w).0.rows ≡ w.rows
unfolding handle
handle-missing h env i w missing = ground arith

waits-others :
    (i j : Text) (rows : Table)
    → waits i rows ≡ false
    → waits j rows ≡ (not (text_eq j i) && waits j rows)
waits-others i j rows h = elim (Bool-cases (text_eq j i)) [
  | inl same ↦
      (let eq : j ≡ i = (text_eq_iff j i).0 same in
        subst (λ k. waits k rows ≡ (not (text_eq k i) && waits k rows)) (sym eq)
          (rw (h, text_eq_self i) refl))
  | inr other ↦ rw other refl
]

-- A call that returned leaves its own row finished and the others as they were.
waits-handle :
    (h : CandidateHandler) (env : Surroundings) (i j : Text) (w : World)
    → has_returned (handle h env i w).1 ≡ true
    → waits j (handle h env i w).0.rows ≡ (not (text_eq j i) && waits j w.rows)
waits-handle h env i j w fine = elim (Option-cases (get i w.rows)) [
  | inl missing ↦
      rw (handle-missing h env i w missing)
        (waits-others i j w.rows (waits-missing i w.rows missing))
  | inr (row, at) ↦
      let effect = handle-Effect h env i w at in
      let over : (handle h env i w).1 ≡ returned = returned_lem _ fine in
      rw effect.updated
        (waits-update i j effect.change w.rows effect.keeps (λ r. effect.closed r over))
]
  where
    returned_lem : (e : Ending) → has_returned e ≡ true → e ≡ returned
    returned_lem returned h = refl
    returned_lem raised h = absurd cc

waits-handle_all :
    (h : CandidateHandler) (envs : Text → Surroundings) (ids : List Text) (j : Text) (w : World)
    → (handle_all h envs ids w).1 ≡ true
    → waits j (handle_all h envs ids w).0.rows ≡ (not (listed ids j) && waits j w.rows)
waits-handle_all h envs [] j w fine = ground arith
waits-handle_all h envs (i ∷ ids) j w fine =
    ground (
      arith,
      waits-handle h (envs i) i j w,
      waits-handle_all h envs ids j (handle h (envs i) i w).0,
    )

none_waits : (rows : Table) → ((j : Text) → waits j rows ≡ false) → tally is_unfinished rows ≡ 0
none_waits [] quiet = refl
none_waits (row ∷ rows) quiet =
    ground (arith, quiet row.request_id, text_eq_self row.request_id, none_waits rows later)
  where
    later : (j : Text) → waits j rows ≡ false
    later j = ground (arith, quiet j)

listed-find_all_unfinished :
    (db : Engine) (limit : ℕ) (rows : Table) (j : Text)
    → IsComplete db
    → tally is_unfinished rows ≤ limit
    → listed (find_all_unfinished db limit rows) j ≡ waits j rows
unfolding find_all_unfinished
listed-find_all_unfinished db limit rows j complete few =
    let found = select is_unfinished (db.oldest_first rows) in
    let few_found : length found ≤ limit = omega (
      arith,
      length-select is_unfinished (db.oldest_first rows),
      complete.oldest_first-tally is_unfinished rows,
      few,
    ) in
    rw
      (
        take_all limit found few_found,
        listed-request_ids j found,
        any-select is_unfinished (has_id j) (db.oldest_first rows),
        any-positive (λ r. is_unfinished r && has_id j r) (db.oldest_first rows),
        complete.oldest_first-tally (λ r. is_unfinished r && has_id j r) rows,
      )
      (sym (any-positive (λ r. is_unfinished r && has_id j r) rows))

-- The jobs of all unfinished rows, handled one after the other by calls that return, leave no row
-- unfinished.
pub handle_all-unfinished :
    (db : Engine) (limit : ℕ) (h : CandidateHandler) (envs : Text → Surroundings) (w : World)
    → IsComplete db
    → tally is_unfinished w.rows ≤ limit
    → (handle_all h envs (find_all_unfinished db limit w.rows) w).1 ≡ true
    → tally is_unfinished (handle_all h envs (find_all_unfinished db limit w.rows) w).0.rows ≡ 0
handle_all-unfinished db limit h envs w complete few fine =
    none_waits (handle_all h envs (find_all_unfinished db limit w.rows) w).0.rows (λ j.
      waits-handle_all h envs (find_all_unfinished db limit w.rows) j w fine
      ∙ rw (listed-find_all_unfinished db limit w.rows j complete few) (ground arith))
