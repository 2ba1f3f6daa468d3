-- ===== src/Pipeline/Candidate/Outcomes.antt =====
-- What a call of the handler writes, by the model's answer and the state of the archive
-- (src/shadow_proxy/pipeline.py).
use mathlib.Core.Option
use llm_shadow_proxy.Base.{
  ℕ, ◌+◌, ◌≡◌, refl, Bool, true, false, Option, none, some, [], ◌∷◌, ◌++◌, take, arith, ap, ◌∙◌,
  inl, if◌then◌else◌,
}
use llm_shadow_proxy.Base.Text.{Text, codes, is_empty, strip}
use llm_shadow_proxy.Base.Json.{null, str, arr, obj, nil, Fields, get_field, truthy}
use llm_shadow_proxy.Evaluator.{
  Verdict, evaluate, parse, strip_code_fence, failed, Python, JsonActionEvaluator, fence_match,
  is_failed,
}
use llm_shadow_proxy.Evaluator.Verdicts.{evaluate-invalid_json_iff}
use llm_shadow_proxy.Base.Text.Laws.{text_eq_self}
use llm_shadow_proxy.Store.{
  ComparisonRecord, FinalizePatch, Table, is_ok, get, mark_in_progress, finalize, in_progress_row,
  finalized_row, CandidateStatus,
}
use llm_shadow_proxy.Store.Updates.{
  get-request_id, get-update, in_progress_row-KeepsId, finalized_row-KeepsId,
}
use llm_shadow_proxy.Raw
use llm_shadow_proxy.Llm.{ChatRequest, ChatResponse, replied, timed_out, call_error}
use llm_shadow_proxy.Pipeline.World.{World, returned, CallOutcome}
use llm_shadow_proxy.Pipeline.Payloads.{
  CandidateHandler, Surroundings, load_request_body, build_request, primary_content_from_raw,
  merge_candidate_into_raw, no_body, message_content,
}
use llm_shadow_proxy.Pipeline.Candidate.{
  result_patch, patch_of, write_final, settle, record_verdict, on_content, on_response, on_request,
  call_candidate, handle_row, handle, finalize_error, on_answer,
}

-- The request that is built from no payload at all.
abbrev pub bare_request : CandidateHandler → ChatRequest
bare_request h = record {
  model = h.candidate_model_id;
  messages = arr nil;
  temperature = null;
  max_completion_tokens = null;
}

-- An empty text does not parse.
parse-empty : (py : Python) → parse py [] ≡ failed (codes "empty_content")
unfolding parse strip_code_fence fence_match strip
parse-empty py = refl

pub get-finalized :
    (i : Text) (now before : ℕ) (patch : FinalizePatch) (rows : Table) {row : ComparisonRecord}
    → get i rows ≡ some row
    → get i (finalize now i patch (mark_in_progress before i rows))
      ≡ some (finalized_row now patch (in_progress_row before row))
unfolding finalize mark_in_progress
get-finalized i now before patch rows at =
    rw
      (
        get-update i i (finalized_row now patch) (mark_in_progress before i rows)
            (finalized_row-KeepsId now patch),
        text_eq_self i,
        get-update i i (in_progress_row before) rows (in_progress_row-KeepsId before),
        text_eq_self i,
        at,
      )
      refl

get-finalize_marked :
    (i : Text) (now before : ℕ) (patch : FinalizePatch) (rows : Table) {row : ComparisonRecord}
    → get i rows ≡ some row
    → Option.map (λ r. r.verdict) (get i (finalize now i patch (mark_in_progress before i rows)))
      ≡ some patch.verdict
unfolding finalized_row
get-finalize_marked i now before patch rows at =
    ap (Option.map (λ r. r.verdict)) (get-finalized i now before patch rows at)

build_request-no_body : (h : CandidateHandler) → build_request h no_body ≡ some (bare_request h)
unfolding build_request get_field
build_request-no_body h = refl

primary_content_from_raw-no_body : primary_content_from_raw no_body ≡ some (str [])
unfolding primary_content_from_raw message_content get_field truthy
primary_content_from_raw-no_body = refl

evaluate-empty :
    (py : Python) (e : JsonActionEvaluator) (candidate : Text)
    → e.require_json ≡ true
    → (evaluate py e [] candidate).verdict ≡ Verdict.invalid_json
evaluate-empty py e candidate required =
    (evaluate-invalid_json_iff py e [] candidate).1 (required, inl (ap is_failed (parse-empty py)))

module _ (h : CandidateHandler) (env : Surroundings) (i : Text) (w : World) {row : ComparisonRecord}
    (at : get i w.rows ≡ some row) (fine : is_ok row.primary_status ≡ true)
    (get_up : env.get_up ≡ true) (mark_up : env.mark_up ≡ true)
    (finalize_up : env.finalize_up ≡ true) where
  pub handle-call_candidate :
      handle h env i w
      ≡ call_candidate h env row
          (record w { rows = mark_in_progress env.marked_at row.request_id w.rows })
  unfolding handle handle_row
  handle-call_candidate = ground arith

  -- On an existing row whose primary call went well, with the database up:
  -- if the archived payload can be read and is an object whose request is accepted, and the model replies, the call
  -- returns, and the row gets the status `ok` and the evaluator's verdict, reasons and action on the
  -- archived primary content and the reply.
  pub handle_replied :
      (key : Text) (files : Raw.Files) (fs : Fields) (req : ChatRequest) (resp : ChatResponse)
      (text : Text)
      → row.raw_object_key ≡ some key
      → is_empty key ≡ false
      → w.raw ≡ some files
      → Raw.get key files ≡ some (obj fs)
      → env.load_up ≡ true
      → build_request h (obj fs) ≡ some req
      → env.accepts req ≡ true
      → env.answer req ≡ replied resp
      → primary_content_from_raw (obj fs) ≡ some (str text)
      → let (w', e) = handle h env i w in
        (e ≡ returned)
        × (w'.rows
            ≡ finalize env.finalized_at i
                (result_patch env (evaluate h.python h.evaluator text resp.content))
                (mark_in_progress env.marked_at i w.rows))
  unfolding call_candidate load_request_body on_request on_response on_content
      merge_candidate_into_raw settle write_final record_verdict
  handle_replied key files fs req resp text has nonempty raw stored load built accepted reply
        content =
      rw handle-call_candidate (ground (arith, get-request_id i w.rows at))

  -- How the call goes on with the rows marked.
  marked : World
  marked = record w { rows = mark_in_progress env.marked_at row.request_id w.rows }

  loads :
      (load_request_body env row.raw_object_key marked).0
      ≡ (load_request_body env row.raw_object_key w).0
  unfolding load_request_body marked
  loads = ground arith

  loaded_same :
      ((load_request_body env row.raw_object_key marked).1.rows ≡ marked.rows)
      × ((load_request_body env row.raw_object_key marked).1.counters ≡ w.counters)
  unfolding load_request_body marked
  loaded_same = ground arith

  handle-on_answer :
      (req : ChatRequest)
      → build_request h (load_request_body env row.raw_object_key w).0 ≡ some req
      → env.accepts req ≡ true
      → handle h env i w
        ≡ on_answer h env row
            (load_request_body env row.raw_object_key marked).0
            (env.answer req)
            (load_request_body env row.raw_object_key marked).1
  unfolding call_candidate on_request marked
  handle-on_answer req built accepted =
      handle-call_candidate ∙ rw (loads, built, accepted, call_candidate)

  finalize_error_lem :
      (error : Text) (timeout : Bool) (v : World)
      → let (w', e) =
          finalize_error h env row.request_id error
            (if timeout then CallOutcome.timeout else CallOutcome.error)
            v in
        (e ≡ returned)
        × (w'.rows
            ≡ finalize env.finalized_at row.request_id
                (patch_of CandidateStatus.error Verdict.candidate_error
                  ((if timeout then codes "candidate_timeout" else codes "candidate_error") ∷ [])
                  (some env.latency_ms)
                  none
                  (some (take 1000 error))
                  env.finalized_at)
                v.rows)
        × (w'.counters.shadow_errors ≡ v.counters.shadow_errors + 1)
        × (w'.counters.shadow_timeouts
            ≡ (if timeout then v.counters.shadow_timeouts + 1 else v.counters.shadow_timeouts))
  unfolding finalize_error write_final
  finalize_error_lem error true v = ground arith
  finalize_error_lem error false v = ground arith

  -- On an existing row whose primary call went well, with the database up and an accepted request:
  -- if the model times out or fails, the call returns, the row gets the status `error`, the verdict
  -- `candidate_error`, the latency and the first thousand characters of the error, and the business
  -- counters count one error more, and one timeout more exactly if it was a timeout.
  pub handle_failed :
      (req : ChatRequest) (msg : Text) (code : Option ℕ) (timeout : Bool)
      → build_request h (load_request_body env row.raw_object_key w).0 ≡ some req
      → env.accepts req ≡ true
      → env.answer req ≡ (if timeout then timed_out msg else call_error msg code)
      → let (w', e) = handle h env i w in
        (e ≡ returned)
        × (w'.rows
            ≡ finalize env.finalized_at i
                (patch_of CandidateStatus.error Verdict.candidate_error
                  ((if timeout then codes "candidate_timeout" else codes "candidate_error") ∷ [])
                  (some env.latency_ms)
                  none
                  (some (take 1000 (if timeout then codes "timeout: " ++ msg else msg)))
                  env.finalized_at)
                (mark_in_progress env.marked_at i w.rows))
        × (w'.counters.shadow_errors ≡ w.counters.shadow_errors + 1)
        × (w'.counters.shadow_timeouts
            ≡ (if timeout then w.counters.shadow_timeouts + 1 else w.counters.shadow_timeouts))
  unfolding marked
  handle_failed req msg code true built accepted failure =
      rw (handle-on_answer req built accepted, failure)
        (ground (
          arith,
          loaded_same,
          get-request_id i w.rows at,
          finalize_error_lem (codes "timeout: " ++ msg) true
              (load_request_body env row.raw_object_key marked).1,
        ))
  handle_failed req msg code false built accepted failure =
      rw (handle-on_answer req built accepted, failure)
        (ground (
          arith,
          loaded_same,
          get-request_id i w.rows at,
          finalize_error_lem msg false (load_request_body env row.raw_object_key marked).1,
        ))

  unarchived-rows :
      (resp : ChatResponse)
      → w.raw ≡ none
      → env.accepts (bare_request h) ≡ true
      → env.answer (bare_request h) ≡ replied resp
      → let (w', e) = handle h env i w in
        (e ≡ returned)
        × (w'.rows
            ≡ finalize env.finalized_at i
                (result_patch env (evaluate h.python h.evaluator [] resp.content))
                (mark_in_progress env.marked_at i w.rows))
  unfolding call_candidate load_request_body on_request on_response on_content
      merge_candidate_into_raw settle write_final record_verdict
  unarchived-rows resp raw accepted reply = rw handle-call_candidate (
      ground (
        arith,
        get-request_id i w.rows at,
        build_request-no_body h,
        primary_content_from_raw-no_body,
      ))

  -- On an existing row whose primary call went well, with the database up and no archive, the candidate
  -- is asked with no messages, whatever the customer wrote. If JSON is required and that request is
  -- accepted and answered, the call returns and the row has the verdict `invalid_json`, whatever the
  -- two models said.
  pub handle_unarchived :
      (resp : ChatResponse)
      → w.raw ≡ none
      → h.evaluator.require_json ≡ true
      → env.accepts (bare_request h) ≡ true
      → env.answer (bare_request h) ≡ replied resp
      → let (w', e) = handle h env i w in
        (e ≡ returned) × (Option.map (λ r. r.verdict) (get i w'.rows) ≡ some Verdict.invalid_json)
  handle_unarchived resp raw required accepted reply =
      let result = evaluate h.python h.evaluator [] resp.content in
      let (done, rows) = unarchived-rows resp raw accepted reply in
      (
        done,
        rw
            (
              rows,
              get-finalize_marked i env.finalized_at env.marked_at (result_patch env result) w.rows
                  at,
            )
            (ap some (evaluate-empty h.python h.evaluator resp.content required)),
      )
