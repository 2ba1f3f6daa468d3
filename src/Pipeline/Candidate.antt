-- ===== src/Pipeline/Candidate.antt =====
-- `CandidateHandler` of src/shadow_proxy/pipeline.py, the job handler of the dispatcher's workers.
-- Behind the first `get` the job's request id is the key of the row that it found.
pub mod Settled
pub mod Widths
pub mod Backlog
pub mod Outcomes
pub mod Archive
pub mod Frame
pub mod Phases
use llm_shadow_proxy.Base.{
  ℕ, ◌+◌, Bool, true, false, Option, none, some, List, [], ◌∷◌, ◌++◌, if◌then◌else◌, take,
}
use llm_shadow_proxy.Base.Text.{Text, codes}
use llm_shadow_proxy.Base.Json.{Value, str, obj, end}
use llm_shadow_proxy.Evaluator.{Verdict, EvaluationResult, evaluate}
use llm_shadow_proxy.Store.{
  ComparisonRecord, FinalizePatch, CandidateStatus, is_ok, get, mark_in_progress, finalize,
}
use llm_shadow_proxy.Raw
use llm_shadow_proxy.Tape.{TapeRow, MismatchTape, offer}
use llm_shadow_proxy.Llm.{
  ChatRequest, ChatResponse, Answer, replied, timed_out, call_error, crashed,
}
use llm_shadow_proxy.Pipeline.World.{
  Counters, CallOutcome, candidate_latency, verdicts_total, World, Ending, returned, raised,
  observe,
}
use llm_shadow_proxy.Pipeline.Payloads.{
  CandidateHandler, Surroundings, load_request_body, request_part, build_request,
  primary_content_from_raw, merge_candidate_into_raw,
}

-- A patch with the fields that the handler may set.
abbrev pub patch_of :
    CandidateStatus → Verdict → List Text → Option ℕ → Option Text → Option Text → ℕ → FinalizePatch
patch_of s v reasons latency action err now = record {
  candidate_status = s;
  verdict = v;
  reasons = reasons;
  candidate_latency_ms = latency;
  candidate_action = action;
  candidate_error = err;
  evaluated_at = some now;
  attempt_count = 1;
  last_attempted_at = none;
}

-- `await self._store.finalize(request_id, patch)`
unfoldable pub write_final : Surroundings → Text → FinalizePatch → World → World × Ending
write_final env request_id patch w =
    if env.finalize_up
    then (record w { rows = finalize env.finalized_at request_id patch w.rows }, returned)
    else (w, raised)

-- The label of the metrics, and the suffix in the reason.
abbrev pub outcome_text : CallOutcome → Text
outcome_text CallOutcome.ok = codes "ok"
outcome_text CallOutcome.error = codes "error"
outcome_text CallOutcome.timeout = codes "timeout"

abbrev pub count_error : CallOutcome → Counters → Counters
count_error CallOutcome.timeout c = record c {
  shadow_errors = c.shadow_errors + 1;
  shadow_timeouts = c.shadow_timeouts + 1;
}
count_error _ c = record c { shadow_errors = c.shadow_errors + 1 }

-- The patch of a call that failed.
abbrev pub error_patch : Surroundings → CallOutcome → Text → FinalizePatch
error_patch env outcome error =
    patch_of CandidateStatus.error Verdict.candidate_error
      ((codes "candidate_" ++ outcome_text outcome) ∷ []) (some env.latency_ms) none
      (some (take 1000 error)) env.finalized_at

-- `_finalize_error`
unfoldable pub finalize_error :
    CandidateHandler → Surroundings → Text → Text → CallOutcome → World → World × Ending
finalize_error h env request_id error outcome w =
    let counted : World = record w { counters = count_error outcome w.counters } in
    let timed =
      observe (candidate_latency h.route_name h.candidate_model_id outcome env.latency_ms)
        counted in
    write_final env request_id (error_patch env outcome error)
      (observe (verdicts_total h.route_name Verdict.candidate_error) timed)

abbrev pub count_verdict : Verdict → Counters → Counters
count_verdict Verdict.match c = record c { verdict_match = c.verdict_match + 1 }
count_verdict Verdict.mismatch c = record c { verdict_mismatch = c.verdict_mismatch + 1 }
count_verdict Verdict.invalid_json c = record c {
  verdict_invalid_json = c.verdict_invalid_json + 1;
}
count_verdict _ c = c

-- `result.verdict.value in ("mismatch", "invalid_json")`
abbrev pub is_taped : Verdict → Bool
is_taped Verdict.mismatch = true
is_taped Verdict.invalid_json = true
is_taped _ = false

abbrev pub tape_row :
    CandidateHandler
    → Surroundings
    → ComparisonRecord
    → Value
    → Text
    → ChatResponse
    → EvaluationResult
    → TapeRow
tape_row h env row body primary_content resp result = record {
  request_id = row.request_id;
  finalized_at = env.finalized_at;
  route = h.route_name;
  verdict = result.verdict;
  primary_model = h.primary_model_id;
  candidate_model = h.candidate_model_id;
  primary_action = row.primary_action;
  candidate_action = result.candidate_action;
  primary_content = primary_content;
  candidate_content = resp.content;
  primary_latency_ms = row.primary_latency_ms;
  candidate_latency_ms = env.latency_ms;
  reasons = result.reasons;
  request_body = elim (request_part body) [ none ↦ obj end | some part ↦ part ];
}

abbrev offer_to : Bool → TapeRow → Option MismatchTape → Option MismatchTape
offer_to true row (some t) = some (offer row t).0
offer_to _ row t = t

-- What follows the last `finalize` of a call that was answered.
unfoldable pub record_verdict : CandidateHandler → EvaluationResult → TapeRow → World → World
record_verdict h result row w =
    let measured = observe (verdicts_total h.route_name result.verdict) w in
    record measured {
      counters = count_verdict result.verdict measured.counters;
      tape = offer_to (is_taped result.verdict) row measured.tape;
    }

-- The patch of an answered call.
abbrev pub result_patch : Surroundings → EvaluationResult → FinalizePatch
result_patch env result =
    patch_of CandidateStatus.ok result.verdict result.reasons (some env.latency_ms)
      result.candidate_action none env.finalized_at

abbrev pub then_record :
    CandidateHandler → EvaluationResult → TapeRow → World × Ending → World × Ending
then_record h result row (w, returned) = (record_verdict h result row w, returned)
then_record h result row (w, raised) = (w, raised)

-- From the merge into the archive on; the evaluation is done.
unfoldable pub settle :
    CandidateHandler
    → Surroundings
    → Text
    → EvaluationResult
    → TapeRow
    → World × Ending
    → World × Ending
settle h env request_id result row (w, raised) = (w, raised)
settle h env request_id result row (w, returned) =
    then_record h result row (write_final env request_id (result_patch env result) w)

-- From the evaluation on, with what `_primary_content_from_raw` gave. A content that is no text makes
-- `_strip_code_fence` raise.
unfoldable pub on_content :
    CandidateHandler
    → Surroundings
    → ComparisonRecord
    → Value
    → ChatResponse
    → World
    → Option Value
    → World × Ending
on_content h env row body resp w (some (str text)) =
    let result = evaluate h.python h.evaluator text resp.content in
    settle h env row.request_id result (tape_row h env row body text resp result)
      (merge_candidate_into_raw env row.raw_object_key resp.raw w)
on_content h env row body resp w _ = (w, raised)

-- A response came.
unfoldable pub on_response :
    CandidateHandler
    → Surroundings
    → ComparisonRecord
    → Value
    → ChatResponse
    → World
    → World × Ending
on_response h env row body resp w =
    let timed =
      observe (candidate_latency h.route_name h.candidate_model_id CallOutcome.ok env.latency_ms)
        w in
    on_content h env row body resp timed (primary_content_from_raw body)

abbrev pub on_answer :
    CandidateHandler → Surroundings → ComparisonRecord → Value → Answer → World → World × Ending
on_answer h env row body (replied resp) w = on_response h env row body resp w
on_answer h env row body (timed_out msg) w =
    finalize_error h env row.request_id (codes "timeout: " ++ msg) CallOutcome.timeout w
on_answer h env row body (call_error msg code) w =
    finalize_error h env row.request_id msg CallOutcome.error w
on_answer h env row body crashed w = (w, raised)

-- The call of the model with what `build_request` gave. Pydantic may refuse the fields.
unfoldable pub on_request :
    CandidateHandler
    → Surroundings
    → ComparisonRecord
    → Value
    → World
    → Option ChatRequest
    → World × Ending
on_request h env row body w none = (w, raised)
on_request h env row body w (some req) =
    if env.accepts req then on_answer h env row body (env.answer req) w else (w, raised)

-- From the load of the archived request on; the row is `in_progress`.
unfoldable pub call_candidate :
    CandidateHandler → Surroundings → ComparisonRecord → World → World × Ending
call_candidate h env row w =
    let (body, loaded) = load_request_body env row.raw_object_key w in
    on_request h env row body loaded (build_request h body)

-- The patch of a row whose primary call failed.
abbrev pub primary_error_patch : ℕ → FinalizePatch
primary_error_patch now =
    patch_of CandidateStatus.dropped Verdict.primary_error (codes "primary_error_no_shadow" ∷ [])
      none none none now

unfoldable pub handle_row :
    CandidateHandler → Surroundings → ComparisonRecord → World → World × Ending
handle_row h env row w =
    if is_ok row.primary_status
    then (if env.mark_up
        then call_candidate h env row
            (record w { rows = mark_in_progress env.marked_at row.request_id w.rows })
        else (w, raised))
    else write_final env row.request_id (primary_error_patch env.finalized_at) w

-- `CandidateHandler.__call__` on the job of a request id.
unfoldable pub handle : CandidateHandler → Surroundings → Text → World → World × Ending
handle h env request_id w =
    if env.get_up
    then (elim (get request_id w.rows) [ none ↦ (w, returned) | some row ↦ handle_row h env row w ])
    else (w, raised)
