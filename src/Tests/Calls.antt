-- ===== src/Tests/Calls.antt =====
-- The candidate handler and the pending row on concrete calls.
use mathlib.Core.Option
use llm_shadow_proxy.Base.{is_some, ◌≡◌, refl, ◌⊎◌, true, false, none, some, [], ◌∷◌, if◌then◌else◌}
use llm_shadow_proxy.Base.Text.{Text, codes, text_eq}
use llm_shadow_proxy.Base.Json.{null, arr, obj, nil, end, get_field, truthy}
use llm_shadow_proxy.Evaluator.{Verdict, evaluate}
use llm_shadow_proxy.Store.{CandidateStatus, pending_row, get, mark_in_progress, finalize}
use llm_shadow_proxy.Store.Queries.{is_unfinished}
use llm_shadow_proxy.Raw
use llm_shadow_proxy.Llm.{ChatRequest, replied, timed_out, crashed}
use llm_shadow_proxy.Pipeline.World.{returned, raised}
use llm_shadow_proxy.Pipeline.Persist.{payload, pending_comparison, persist_pending}
use llm_shadow_proxy.Pipeline.Persist.Durable.{archive_key, persist_pending_durable}
use llm_shadow_proxy.Pipeline.Payloads.{
  load_request_body, build_request, primary_content_from_raw, message_content,
  merge_candidate_into_raw, put_response,
}
use llm_shadow_proxy.Pipeline.Candidate.{handle, patch_of, result_patch}
use llm_shadow_proxy.Pipeline.Persist.Taken.{persist_pending_up}
use llm_shadow_proxy.Pipeline.Persist.{Submission}
use llm_shadow_proxy.Pipeline.Candidate.Settled.{handle_settles_alone}
use llm_shadow_proxy.Pipeline.Candidate.Outcomes.{handle_replied, handle_failed, handle_unarchived}
use llm_shadow_proxy.Pipeline.Candidate.Archive.{archive_of, merge_candidate_into_raw_lem}
use llm_shadow_proxy.Tests.{
  handler, answering, deployment, without_archive, archived_row, table, reply, day, files,
  payload_fields, python, evaluator, new_request, outcome,
}

pub archived_at : get (codes "a") table ≡ some archived_row
unfolding get text_eq pending_row
archived_at = refl

pub stored_at : Raw.get (Raw.key_for day (codes "a")) files ≡ some (obj payload_fields)
unfolding Raw.get Raw.key_for text_eq
stored_at = refl

handle_settles_alone_example :
    let (w', e) = handle handler (answering crashed) (codes "a") deployment in
    (((e ≡ returned) × (Option.map is_unfinished (get (codes "a") w'.rows) ≡ some false))
      ⊎ ((e ≡ raised) × (Option.map is_unfinished (get (codes "a") w'.rows) ≡ some true)))
    × (get (codes "b") w'.rows ≡ get (codes "b") table)
unfolding pending_row text_eq
handle_settles_alone_example =
    handle_settles_alone handler (answering crashed) (codes "a") (codes "b") deployment archived_at
      refl refl

abbrev pub rebuilt : ChatRequest
rebuilt = record {
  model = codes "small";
  messages = arr nil;
  temperature = null;
  max_completion_tokens = null;
}

handle_replied_example :
    let (w', e) = handle handler (answering (replied reply)) (codes "a") deployment in
    (e ≡ returned)
    × (w'.rows
        ≡ finalize 30
            (codes "a")
            (result_patch
              (answering (replied reply))
              (evaluate python evaluator (codes "go") (codes " GO ")))
            (mark_in_progress 20 (codes "a") table))
unfolding build_request primary_content_from_raw message_content get_field truthy text_eq
    pending_row Raw.key_for
handle_replied_example =
    handle_replied handler (answering (replied reply)) (codes "a") deployment archived_at refl refl
      refl refl (Raw.key_for day (codes "a")) files payload_fields rebuilt reply (codes "go") refl
      refl refl stored_at refl refl refl refl refl

handle_failed_example :
    let (w', e) = handle handler (answering (timed_out (codes "slow"))) (codes "a") deployment in
    (e ≡ returned)
    × (w'.rows
        ≡ finalize 30
            (codes "a")
            (patch_of CandidateStatus.error Verdict.candidate_error
              (codes "candidate_timeout" ∷ [])
              (some 9)
              none
              (some (codes "timeout: slow"))
              30)
            (mark_in_progress 20 (codes "a") table))
    × (w'.counters.shadow_errors ≡ 1)
    × (w'.counters.shadow_timeouts ≡ 1)
unfolding load_request_body build_request get_field text_eq pending_row Raw.key_for Raw.get
handle_failed_example =
    handle_failed handler (answering (timed_out (codes "slow"))) (codes "a") deployment archived_at
      refl refl refl refl rebuilt (codes "slow") none true refl refl refl

handle_unarchived_example :
    let (w', e) = handle handler (answering (replied reply)) (codes "a") without_archive in
    (e ≡ returned)
    × (Option.map (λ r. r.verdict) (get (codes "a") w'.rows) ≡ some Verdict.invalid_json)
unfolding pending_row
handle_unarchived_example =
    handle_unarchived handler (answering (replied reply)) (codes "a") without_archive archived_at
      refl refl refl refl reply refl refl refl refl

merge_candidate_into_raw_example :
    let (w', e) =
      merge_candidate_into_raw
        (answering (replied reply))
        (some (Raw.key_for day (codes "a")))
        (obj end)
        deployment in
    (e ≡ returned)
    × ((j : Text)
        → archive_of j w' ≡ (
            if text_eq j (Raw.key_for (codes "2026/02/01") (codes "a"))
            then put_response (obj end) (obj payload_fields)
            else Raw.get j files))
merge_candidate_into_raw_example =
    merge_candidate_into_raw_lem (answering (replied reply)) day (codes "a") (obj end) deployment
      files payload_fields refl refl stored_at refl refl

persist_pending_durable_example :
    let (w', e) = persist_pending python true true day new_request outcome deployment in
    ((e ≡ returned)
      × (get (codes "n") w'.rows
          ≡ some (
              pending_row (
                pending_comparison python new_request outcome
                  (archive_key python true true day new_request outcome deployment))))
      × (get (codes "a") w'.rows ≡ get (codes "a") table))
    ⊎ ((e ≡ raised) × (w'.rows ≡ table))
unfolding text_eq
persist_pending_durable_example =
    persist_pending_durable python true true day new_request outcome deployment (codes "a") refl
      refl

-- A client sends the id of an archived request again.
abbrev repeated : Submission
repeated = record new_request { request_id = codes "a" }

persist_pending_up_example :
    let (w', e) = persist_pending python true true day repeated outcome deployment in
    ((load_request_body (answering crashed) (some (Raw.key_for day (codes "a"))) w').0
      ≡ payload repeated outcome)
    × (((get (codes "a") table ≡ none)
          × (e ≡ returned)
          × (get (codes "a") w'.rows
              ≡ some (
                  pending_row (
                    pending_comparison python repeated outcome
                      (some (Raw.key_for day (codes "a")))))))
        ⊎ ((is_some (get (codes "a") table) ≡ true) × (w'.rows ≡ table) × (e ≡ raised)))
persist_pending_up_example =
    persist_pending_up python day repeated outcome deployment files refl (answering crashed) refl
