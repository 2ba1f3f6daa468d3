-- ===== src/Pipeline/Candidate/Frame.antt =====
-- What a call of the handler does to the table (`CandidateHandler` of src/shadow_proxy/pipeline.py):
-- it writes one final patch into its own row and returns, or it raises and has not.
use mathlib.Core.Path.{subst}
use llm_shadow_proxy.Base.{◌≡◌, refl, ◌⊎◌, inl, inr, false, Option, none, some, Bool-cases, arith}
use llm_shadow_proxy.Base.Text.{Text}
use llm_shadow_proxy.Base.Json.{Value, str}
use llm_shadow_proxy.Evaluator.{EvaluationResult}
use llm_shadow_proxy.Store.{ComparisonRecord, FinalizePatch, Table, finalize}
use llm_shadow_proxy.Store.Queries.{is_open}
use llm_shadow_proxy.Tape.{TapeRow}
use llm_shadow_proxy.Llm.{
  ChatRequest, ChatResponse, Answer, replied, timed_out, call_error, crashed,
}
use llm_shadow_proxy.Pipeline.World.{CallOutcome, World, Ending, returned, raised}
use llm_shadow_proxy.Pipeline.Payloads.{
  CandidateHandler, Surroundings, load_request_body, build_request, primary_content_from_raw,
  merge_candidate_into_raw,
}
use llm_shadow_proxy.Pipeline.Candidate.{
  write_final, finalize_error, record_verdict, settle, then_record, result_patch, on_response,
  on_content, on_answer, on_request, call_candidate, primary_error_patch,
}

-- The call raised and left the rows alone, or it returned and wrote one patch with a final status.
abbrev pub Finalizes : Surroundings → Text → Table → World × Ending → Type 0
Finalizes env i rows (w, e) =
    ((e ≡ raised) × (w.rows ≡ rows))
    ⊎ ((patch : FinalizePatch) × (e ≡ returned)
        × (is_open patch.candidate_status ≡ false)
        × (w.rows ≡ finalize env.finalized_at i patch rows))

module _ (h : CandidateHandler) (env : Surroundings) where
  write_final-Finalizes :
      (i : Text) (patch : FinalizePatch) (w : World)
      → is_open patch.candidate_status ≡ false
      → Finalizes env i w.rows (write_final env i patch w)
  unfolding write_final
  write_final-Finalizes i patch w closed = elim (Bool-cases env.finalize_up) [
    | inl up ↦ inr (patch, ground arith, closed, ground arith)
    | inr down ↦ inl (ground arith, ground arith)
  ]

  load_request_body-rows :
      (key : Option Text) (w : World) → (load_request_body env key w).1.rows ≡ w.rows
  unfolding load_request_body
  load_request_body-rows key w = ground arith

  merge_candidate_into_raw-rows :
      (key : Option Text) (v : Value) (w : World)
      → (merge_candidate_into_raw env key v w).0.rows ≡ w.rows
  unfolding merge_candidate_into_raw
  merge_candidate_into_raw-rows key v w = ground arith

  finalize_error-Finalizes :
      (i error : Text) (outcome : CallOutcome) (w : World)
      → Finalizes env i w.rows (finalize_error h env i error outcome w)
  unfolding finalize_error
  finalize_error-Finalizes i error outcome w = write_final-Finalizes i _ _ refl

  then_record-Finalizes :
      (i : Text) (result : EvaluationResult) (row : TapeRow) (rows : Table) (r : World × Ending)
      → Finalizes env i rows r
      → Finalizes env i rows (then_record h result row r)
  unfolding record_verdict
  then_record-Finalizes i result row rows (w, returned) f = f
  then_record-Finalizes i result row rows (w, raised) f = f

  settle-Finalizes :
      (i : Text) (result : EvaluationResult) (row : TapeRow) (r : World × Ending)
      → Finalizes env i r.0.rows (settle h env i result row r)
  unfolding settle
  settle-Finalizes i result row (w, raised) = inl (refl, refl)
  settle-Finalizes i result row (w, returned) =
      then_record-Finalizes i result row w.rows (write_final env i (result_patch env result) w)
        (write_final-Finalizes i (result_patch env result) w refl)

  on_content-Finalizes :
      (row : ComparisonRecord) (body : Value) (resp : ChatResponse) (w : World) (c : Option Value)
      → Finalizes env row.request_id w.rows (on_content h env row body resp w c)
  unfolding on_content
  on_content-Finalizes row body resp w (some (str text)) =
      subst
        (λ rows.
          Finalizes env row.request_id rows (on_content h env row body resp w (some (str text))))
        (merge_candidate_into_raw-rows row.raw_object_key resp.raw w)
        (settle-Finalizes row.request_id _ _
          (merge_candidate_into_raw env row.raw_object_key resp.raw w))
  on_content-Finalizes row body resp w _ = inl (refl, refl)

  on_response-Finalizes :
      (row : ComparisonRecord) (body : Value) (resp : ChatResponse) (w : World)
      → Finalizes env row.request_id w.rows (on_response h env row body resp w)
  unfolding on_response
  on_response-Finalizes row body resp w =
      on_content-Finalizes row body resp _ (primary_content_from_raw body)

  on_answer-Finalizes :
      (row : ComparisonRecord) (body : Value) (a : Answer) (w : World)
      → Finalizes env row.request_id w.rows (on_answer h env row body a w)
  on_answer-Finalizes row body (replied resp) w = on_response-Finalizes row body resp w
  on_answer-Finalizes row body (timed_out msg) w = finalize_error-Finalizes row.request_id _ _ w
  on_answer-Finalizes row body (call_error msg code) w =
      finalize_error-Finalizes row.request_id _ _ w
  on_answer-Finalizes row body crashed w = inl (refl, refl)

  on_request-Finalizes :
      (row : ComparisonRecord) (body : Value) (w : World) (req : Option ChatRequest)
      → Finalizes env row.request_id w.rows (on_request h env row body w req)
  unfolding on_request
  on_request-Finalizes row body w none = inl (refl, refl)
  on_request-Finalizes row body w (some req) = elim (Bool-cases (env.accepts req)) [
    | inl accepted ↦ rw accepted (on_answer-Finalizes row body (env.answer req) w)
    | inr refused ↦ rw refused (inl (refl, refl))
  ]

  pub call_candidate-Finalizes :
      (row : ComparisonRecord) (w : World)
      → Finalizes env row.request_id w.rows (call_candidate h env row w)
  unfolding call_candidate
  call_candidate-Finalizes row w =
      let (body, loaded) = load_request_body env row.raw_object_key w in
      subst (λ rows. Finalizes env row.request_id rows (call_candidate h env row w))
        (load_request_body-rows row.raw_object_key w)
        (on_request-Finalizes row body loaded (build_request h body))

  pub primary_error-Finalizes :
      (row : ComparisonRecord) (w : World)
      → Finalizes env row.request_id w.rows
          (write_final env row.request_id (primary_error_patch env.finalized_at) w)
  primary_error-Finalizes row w =
      write_final-Finalizes row.request_id (primary_error_patch env.finalized_at) w refl
