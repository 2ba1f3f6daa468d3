-- ===== src/Pipeline/Candidate/Settled.antt =====
-- How a call of the handler leaves its row and the others (`CandidateHandler.__call__` of
-- src/shadow_proxy/pipeline.py).
use mathlib.Core.Path.{subst}
use mathlib.Core.Option
use llm_shadow_proxy.Base.{
  ℕ, ◌≡◌, refl, ◌⊎◌, inl, inr, true, false, none, some, Option-cases, arith, ap, sym, ◌∙◌,
  if◌then◌else◌, if_holds,
}
use llm_shadow_proxy.Base.Text.{Text, text_eq}
use llm_shadow_proxy.Base.Text.Laws.{text_eq_self}
use llm_shadow_proxy.Store.{
  ComparisonRecord, FinalizePatch, Table, is_ok, get, mark_in_progress, finalize, in_progress_row,
  finalized_row, update,
}
use llm_shadow_proxy.Store.Queries.{is_open, is_unfinished}
use llm_shadow_proxy.Store.Updates.{
  KeepsId, get-update, in_progress_row-KeepsId, finalized_row-KeepsId, update-id, update-update,
  get-request_id,
}
use llm_shadow_proxy.Pipeline.World.{World, Ending, returned, raised}
use llm_shadow_proxy.Pipeline.Payloads.{CandidateHandler, Surroundings}
use llm_shadow_proxy.Pipeline.Candidate.{
  call_candidate, handle_row, handle, write_final, primary_error_patch,
}
use llm_shadow_proxy.Pipeline.Candidate.Frame.{
  Finalizes, call_candidate-Finalizes, primary_error-Finalizes,
}

-- The table is the old one with one row changed. If the call raised, an unfinished row is still
-- unfinished; if it returned, the row is finished.
pub record Effect (i : Text) (rows : Table) (r : World × Ending) : Type 0 where
  pub change : ComparisonRecord → ComparisonRecord
  pub keeps : KeepsId change
  pub updated : r.0.rows ≡ update i change rows
  pub left_open :
      (row : ComparisonRecord)
      → r.1 ≡ raised
      → is_unfinished row ≡ true
      → is_unfinished (change row) ≡ true
  pub closed : (row : ComparisonRecord) → r.1 ≡ returned → is_unfinished (change row) ≡ false

is_unfinished-finalized_row :
    (now : ℕ) (patch : FinalizePatch) (row : ComparisonRecord)
    → is_unfinished (finalized_row now patch row) ≡ is_open patch.candidate_status
unfolding finalized_row
is_unfinished-finalized_row now patch row = refl

is_unfinished-in_progress_row :
    (now : ℕ) (row : ComparisonRecord) → is_unfinished (in_progress_row now row) ≡ true
unfolding in_progress_row
is_unfinished-in_progress_row now row = refl

Effect-unchanged : (i : Text) (w : World) → Effect i w.rows (w, raised)
Effect-unchanged i w = record {
  change = λ row. row;
  keeps = λ row. refl;
  updated = sym (update-id i w.rows);
  left_open = λ row e h. h;
  closed = λ row e. cc;
}

-- A call that starts on rows in which `f` has been applied to its own.
Finalizes-Effect :
    (env : Surroundings) (i : Text) (f : ComparisonRecord → ComparisonRecord) (rows : Table)
    (r : World × Ending)
    → KeepsId f
    → ((row : ComparisonRecord) → is_unfinished row ≡ true → is_unfinished (f row) ≡ true)
    → Finalizes env i (update i f rows) r
    → Effect i rows r
unfolding finalize
Finalizes-Effect env i f rows r keeps stays (inl (e, same)) = record {
  change = f;
  keeps = keeps;
  updated = same;
  left_open = λ row _ h. stays row h;
  closed = λ row e'. cc;
}
Finalizes-Effect env i f rows r keeps stays (inr (patch, e, final, written)) = record {
  change = λ row. finalized_row env.finalized_at patch (f row);
  keeps = λ row. finalized_row-KeepsId env.finalized_at patch (f row) ∙ keeps row;
  updated = written ∙ update-update i f (finalized_row env.finalized_at patch) rows keeps;
  left_open = λ row e' h. cc;
  closed = λ row _. is_unfinished-finalized_row env.finalized_at patch (f row) ∙ final;
}

marks :
    (env : Surroundings) (row : ComparisonRecord) (w : World) (h : CandidateHandler)
    → Effect row.request_id w.rows (
        call_candidate h env row
          (record w { rows = mark_in_progress env.marked_at row.request_id w.rows }))
unfolding mark_in_progress
marks env row w h =
    Finalizes-Effect env row.request_id (in_progress_row env.marked_at) w.rows
      (call_candidate h env row
        (record w { rows = mark_in_progress env.marked_at row.request_id w.rows }))
      (in_progress_row-KeepsId env.marked_at) (λ r _. is_unfinished-in_progress_row env.marked_at r)
      (call_candidate-Finalizes h env row
        (record w { rows = mark_in_progress env.marked_at row.request_id w.rows }))

handle_row-Effect :
    (h : CandidateHandler) (env : Surroundings) (row : ComparisonRecord) (w : World)
    → Effect row.request_id w.rows (handle_row h env row w)
unfolding handle_row
handle_row-Effect h env row w =
    let marked =
      call_candidate h env row
        (record w { rows = mark_in_progress env.marked_at row.request_id w.rows }) in
    let dropped = write_final env row.request_id (primary_error_patch env.finalized_at) w in
    if_holds (Effect row.request_id w.rows) (is_ok row.primary_status)
      (if env.mark_up then marked else (w, raised)) dropped
      (if_holds (Effect row.request_id w.rows) env.mark_up marked (w, raised) (marks env row w h)
        (Effect-unchanged row.request_id w))
      (Finalizes-Effect env row.request_id (λ r. r) w.rows dropped (λ r. refl) (λ r e. e)
        (rw (update-id row.request_id w.rows) (primary_error-Finalizes h env row w)))

pub handle-Effect :
    (h : CandidateHandler) (env : Surroundings) (i : Text) (w : World) {row : ComparisonRecord}
    → get i w.rows ≡ some row
    → Effect i w.rows (handle h env i w)
unfolding handle
handle-Effect h env i w {row} at =
    if_holds (Effect i w.rows) env.get_up
      (elim (get i w.rows) [ none ↦ (w, returned) | some row ↦ handle_row h env row w ]) (w, raised)
      (rw at (
        subst (λ j. Effect j w.rows (handle_row h env row w)) (sym (get-request_id i w.rows at))
          (handle_row-Effect h env row w)))
      (Effect-unchanged i w)

Effect-ending :
    (i : Text) (rows : Table) (w' : World) (e : Ending) (effect : Effect i rows (w', e))
    (row : ComparisonRecord)
    → is_unfinished row ≡ true
    → get i w'.rows ≡ some (effect.change row)
    → ((e ≡ returned) × (Option.map is_unfinished (get i w'.rows) ≡ some false))
      ⊎ ((e ≡ raised) × (Option.map is_unfinished (get i w'.rows) ≡ some true))
Effect-ending i rows w' returned effect row unfinished own =
    inl (refl, rw own (ap some (effect.closed row refl)))
Effect-ending i rows w' raised effect row unfinished own =
    inr (refl, rw own (ap some (effect.left_open row refl unfinished)))

pub handle_missing :
    (h : CandidateHandler) (env : Surroundings) (i j : Text) (w : World)
    → get i w.rows ≡ none
    → get j (handle h env i w).0.rows ≡ get j w.rows
unfolding handle
handle_missing h env i j w missing = ground arith

-- A call on an existing row that is unfinished either returns and leaves the row finished, or raises
-- and leaves it unfinished, where the sweeper and the requeue at startup find it; this holds whatever
-- fails in between.
handle_settles :
    (h : CandidateHandler) (env : Surroundings) (i : Text) (w : World) {row : ComparisonRecord}
    → get i w.rows ≡ some row
    → is_unfinished row ≡ true
    → let (w', e) = handle h env i w in
      ((e ≡ returned) × (Option.map is_unfinished (get i w'.rows) ≡ some false))
      ⊎ ((e ≡ raised) × (Option.map is_unfinished (get i w'.rows) ≡ some true))
handle_settles h env i w {row} at unfinished =
    let (w', e) = handle h env i w in
    let effect = handle-Effect h env i w at in
    let own : get i (handle h env i w).0.rows ≡ some (effect.change row) =
      rw (effect.updated, get-update i i effect.change w.rows effect.keeps, text_eq_self i, at) in
    Effect-ending i w.rows w' e effect row unfinished own

-- A call of the handler changes no row but its own, however it ends.
handle_others :
    (h : CandidateHandler) (env : Surroundings) (i j : Text) (w : World)
    → text_eq i j ≡ false
    → get j (handle h env i w).0.rows ≡ get j w.rows
handle_others h env i j w other = elim (Option-cases (get i w.rows)) [
  | inl missing ↦ handle_missing h env i j w missing
  | inr (row, at) ↦
      let effect = handle-Effect h env i w at in
      rw (effect.updated, get-update i j effect.change w.rows effect.keeps, other)
]

-- A call on an existing row that is unfinished either returns and leaves the row finished, or raises
-- and leaves it unfinished, where the sweeper and the requeue at startup find it; this holds whatever
-- fails in between. It changes no other row.
pub handle_settles_alone :
    (h : CandidateHandler) (env : Surroundings) (i j : Text) (w : World) {row : ComparisonRecord}
    → get i w.rows ≡ some row
    → is_unfinished row ≡ true
    → text_eq i j ≡ false
    → let (w', e) = handle h env i w in
      (((e ≡ returned) × (Option.map is_unfinished (get i w'.rows) ≡ some false))
        ⊎ ((e ≡ raised) × (Option.map is_unfinished (get i w'.rows) ≡ some true)))
      × (get j w'.rows ≡ get j w.rows)
handle_settles_alone h env i j w at unfinished other =
    (handle_settles h env i w at unfinished, handle_others h env i j w other)
