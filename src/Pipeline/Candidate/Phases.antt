-- ===== src/Pipeline/Candidate/Phases.antt =====
-- `CandidateHandler.__call__` of src/shadow_proxy/pipeline.py in two parts: up to the write that marks the
-- row, and from the load of the archived request on. Between them other tasks may run.
use llm_shadow_proxy.Base.{
  ◌≡◌, refl, Option, none, some, arith, if◌then◌else◌, Bool-cases, inl, inr, if_holds,
}
use llm_shadow_proxy.Base.Text.{Text}
use llm_shadow_proxy.Store.{ComparisonRecord, Table, is_ok, get, mark_in_progress}
use llm_shadow_proxy.Store.Journal.{Edits, unchanged, marked, finalized}
use llm_shadow_proxy.Pipeline.World.{World, Ending, returned, raised}
use llm_shadow_proxy.Pipeline.Payloads.{CandidateHandler, Surroundings}
use llm_shadow_proxy.Pipeline.Candidate.{
  call_candidate, handle_row, handle, write_final, primary_error_patch,
}
use llm_shadow_proxy.Pipeline.Candidate.Frame.{
  Finalizes, call_candidate-Finalizes, primary_error-Finalizes,
}

-- After the first part the call is over, or it goes on with the row that it read.
pub data Begun : Type 0 where
  over : Ending → Begun
  calling : ComparisonRecord → Begun

abbrev pub ended : World × Ending → World × Begun
ended (w, e) = (w, over e)

abbrev pub begin_row : CandidateHandler → Surroundings → ComparisonRecord → World → World × Begun
begin_row h env row w =
    if is_ok row.primary_status
    then (if env.mark_up
        then (record w { rows = mark_in_progress env.marked_at row.request_id w.rows }, calling row)
        else (w, over raised))
    else ended (write_final env row.request_id (primary_error_patch env.finalized_at) w)

abbrev pub begin_found :
    CandidateHandler → Surroundings → Option ComparisonRecord → World → World × Begun
begin_found h env none w = (w, over returned)
begin_found h env (some row) w = begin_row h env row w

unfoldable pub begin : CandidateHandler → Surroundings → Text → World → World × Begun
begin h env request_id w =
    if env.get_up then begin_found h env (get request_id w.rows) w else (w, over raised)

abbrev pub resume : CandidateHandler → Surroundings → World × Begun → World × Ending
resume h env (w, over e) = (w, e)
resume h env (w, calling row) = call_candidate h env row w

resume-ended :
    (h : CandidateHandler) (env : Surroundings) (r : World × Ending) → resume h env (ended r) ≡ r
resume-ended h env (w, e) = refl

-- A call that no other task interrupts is its first part followed at once by the second.
pub handle-begin :
    (h : CandidateHandler) (env : Surroundings) (i : Text) (w : World)
    → handle h env i w ≡ resume h env (begin h env i w)
unfolding handle handle_row begin
handle-begin h env i w = ground (arith, by_row)
  where
    by_row :
        (row : ComparisonRecord) → handle_row h env row w ≡ resume h env (begin_row h env row w)
    by_row row = elim (Bool-cases (is_ok row.primary_status)) [
      | inl fine ↦ elim (Bool-cases env.mark_up) [
        | inl up ↦ rw (fine, up) refl
        | inr down ↦ rw (fine, down) refl
      ]
      | inr bad ↦ ground (
        arith,
        resume-ended h env
            (write_final env row.request_id (primary_error_patch env.finalized_at) w),
      )
    ]

Finalizes-Edits :
    (env : Surroundings) (i : Text) (w : World) (r : World × Ending)
    → Finalizes env i w.rows r
    → Edits w.rows r.0.rows
Finalizes-Edits env i w r (inl (e, same)) = rw same unchanged
Finalizes-Edits env i w r (inr (patch, e, final, written)) =
    finalized env.finalized_at i patch unchanged final written

pub call_candidate-Edits :
    (h : CandidateHandler) (env : Surroundings) (row : ComparisonRecord) (w : World)
    → Edits w.rows (call_candidate h env row w).0.rows
call_candidate-Edits h env row w =
    Finalizes-Edits env row.request_id w (call_candidate h env row w)
      (call_candidate-Finalizes h env row w)

ended-Edits :
    (rows : Table) (r : World × Ending) → Edits rows r.0.rows → Edits rows (ended r).0.rows
ended-Edits rows (w, e) edits = edits

begin_row-Edits :
    (h : CandidateHandler) (env : Surroundings) (row : ComparisonRecord) (w : World)
    → Edits w.rows (begin_row h env row w).0.rows
begin_row-Edits h env row w =
    let early = write_final env row.request_id (primary_error_patch env.finalized_at) w in
    let mark : World = record w { rows = mark_in_progress env.marked_at row.request_id w.rows } in
    if_holds (λ (r : World × Begun). Edits w.rows r.0.rows) (is_ok row.primary_status)
      (if env.mark_up then (mark, calling row) else (w, over raised)) (ended early)
      (if_holds (λ (r : World × Begun). Edits w.rows r.0.rows) env.mark_up (mark, calling row)
        (w, over raised) (marked env.marked_at row.request_id unchanged refl) unchanged)
      (ended-Edits w.rows early
        (Finalizes-Edits env row.request_id w early (primary_error-Finalizes h env row w)))

begin_found-Edits :
    (h : CandidateHandler) (env : Surroundings) (found : Option ComparisonRecord) (w : World)
    → Edits w.rows (begin_found h env found w).0.rows
begin_found-Edits h env none w = unchanged
begin_found-Edits h env (some row) w = begin_row-Edits h env row w

pub begin-Edits :
    (h : CandidateHandler) (env : Surroundings) (i : Text) (w : World)
    → Edits w.rows (begin h env i w).0.rows
unfolding begin
begin-Edits h env i w =
    if_holds (λ (r : World × Begun). Edits w.rows r.0.rows) env.get_up
      (begin_found h env (get i w.rows) w) (w, over raised)
      (begin_found-Edits h env (get i w.rows) w) unchanged
