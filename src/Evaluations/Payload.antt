-- ===== src/Evaluations/Payload.antt =====
-- What the raw endpoint (`get_evaluation_raw` of src/shadow_proxy/api/v1/evaluations.py) shows after the
-- handler of src/shadow_proxy/pipeline.py has run.
use llm_shadow_proxy.Base.{
  ℕ, ◌≡◌, refl, ◌∙◌, true, false, Option, none, some, arith, if◌then◌else◌, Bool-cases, inl, inr,
}
use llm_shadow_proxy.Base.Text.{Text, codes, text_eq, is_empty}
use llm_shadow_proxy.Base.Text.Laws.{text_eq_self}
use llm_shadow_proxy.Base.Json.{Value, str, obj, Fields, get_field, set_field}
use llm_shadow_proxy.Base.Json.Laws.{get_field-set_field}
use llm_shadow_proxy.Evaluator.{evaluate}
use llm_shadow_proxy.Store.{
  ComparisonRecord, FinalizePatch, Table, is_ok, get, mark_in_progress, finalize, in_progress_row,
  finalized_row,
}
use llm_shadow_proxy.Store.Updates.{
  get-update, get-request_id, in_progress_row-KeepsId, finalized_row-KeepsId,
}
use llm_shadow_proxy.Raw as Archive
use llm_shadow_proxy.Raw.Keys.{get-write, request_id_of_key-key_for}
use llm_shadow_proxy.Llm.{ChatRequest, ChatResponse, replied}
use llm_shadow_proxy.Pipeline.World.{World}
use llm_shadow_proxy.Pipeline.Payloads.{
  CandidateHandler, Surroundings, build_request, primary_content_from_raw, load_request_body,
  merge_candidate_into_raw,
}
use llm_shadow_proxy.Pipeline.Candidate.{
  result_patch, handle, call_candidate, on_request, on_response, on_content, settle, write_final,
  record_verdict,
}
use llm_shadow_proxy.Pipeline.Candidate.Outcomes.{handle_replied, handle-call_candidate}
use llm_shadow_proxy.Evaluations.{ok}
use llm_shadow_proxy.Evaluations.Archived.{
  up, as_dict, extract_message_content, with_payload, raw_base, get_evaluation_raw,
}

-- The base of the reply does not show what the handler writes.
raw_base-handled :
    (i : Text) (now before : ℕ) (patch : FinalizePatch) (row : ComparisonRecord)
    → patch.candidate_error ≡ none
    → raw_base i (finalized_row now patch (in_progress_row before row)) ≡ raw_base i row
unfolding finalized_row in_progress_row
raw_base-handled i now before patch row h = ground arith

get-handled :
    (i : Text) (now before : ℕ) (patch : FinalizePatch) (rows : Table) {row : ComparisonRecord}
    → get i rows ≡ some row
    → get i (finalize now i patch (mark_in_progress before i rows))
      ≡ some (finalized_row now patch (in_progress_row before row))
unfolding finalize mark_in_progress
get-handled i now before patch rows at = rw (
  get-update i i (finalized_row now patch) (mark_in_progress before i rows)
      (finalized_row-KeepsId now patch),
  text_eq_self i,
  get-update i i (in_progress_row before) rows (in_progress_row-KeepsId before),
  text_eq_self i,
  at,
)

finalized-key :
    (now before : ℕ) (patch : FinalizePatch) (row : ComparisonRecord)
    → (finalized_row now patch (in_progress_row before row)).raw_object_key ≡ row.raw_object_key
unfolding finalized_row in_progress_row
finalized-key now before patch row = refl

-- A row with an archived payload is shown with that payload.
get_evaluation_raw-found :
    (i key : Text) (rows : Table) (files : Archive.Files) (payload : Value) {row : ComparisonRecord}
    → get i rows ≡ some row
    → row.raw_object_key ≡ some key
    → is_empty key ≡ false
    → Archive.get key files ≡ some payload
    → get_evaluation_raw up i rows (some files) ≡ with_payload (raw_base i row) payload
unfolding get_evaluation_raw
get_evaluation_raw-found i key rows files payload at has nonempty stored = ground arith

module _ (h : CandidateHandler) (env : Surroundings) (i day : Text) (w : World)
    {row : ComparisonRecord} (files : Archive.Files) (fs gs : Fields) (req : ChatRequest)
    (content text : Text) (at : get i w.rows ≡ some row) (fine : is_ok row.primary_status ≡ true)
    (get_up : env.get_up ≡ true) (mark_up : env.mark_up ≡ true)
    (finalize_up : env.finalize_up ≡ true) (load_up : env.load_up ≡ true)
    (merge_get_up : env.merge_get_up ≡ true) (merge_put_up : env.merge_put_up ≡ true)
    (flat : Archive.has_slash i ≡ false) (has : row.raw_object_key ≡ some (Archive.key_for day i))
    (raw : w.raw ≡ some files) (stored : Archive.get (Archive.key_for day i) files ≡ some (obj fs))
    (built : build_request h (obj fs) ≡ some req) (accepted : env.accepts req ≡ true)
    (reply : env.answer req ≡ replied (record { content = content; raw = obj gs }))
    (primary : primary_content_from_raw (obj fs) ≡ some (str text)) where
  nonempty : is_empty (Archive.key_for day i) ≡ false
  unfolding Archive.key_for
  nonempty = refl

  same_id : Archive.request_id_of_key (Archive.key_for day i) ≡ i
  same_id = request_id_of_key-key_for day i flat

  merged_files : Archive.Files
  merged_files =
      Archive.write (Archive.key_for env.merge_day i)
        (obj (set_field (codes "candidate_response") (obj gs) fs)) files

  handle-raw : (handle h env i w).0.raw ≡ some merged_files
  unfolding call_candidate load_request_body on_request on_response on_content
      merge_candidate_into_raw settle write_final record_verdict Archive.put merged_files
  handle-raw =
      rw (handle-call_candidate h env i w at fine get_up mark_up finalize_up)
        (ground (arith, get-request_id i w.rows at, nonempty, same_id))

  -- The candidate's response as the endpoint finds it.
  abbrev pub shown_candidate : Option Fields
  shown_candidate =
      if text_eq (Archive.key_for day i) (Archive.key_for env.merge_day i)
      then some gs
      else as_dict (get_field (codes "candidate_response") fs)

  shown_payload : Value
  shown_payload =
      if text_eq (Archive.key_for day i) (Archive.key_for env.merge_day i)
      then obj (set_field (codes "candidate_response") (obj gs) fs)
      else obj fs

  get-merged_files : Archive.get (Archive.key_for day i) merged_files ≡ some shown_payload
  unfolding merged_files shown_payload
  get-merged_files =
      get-write (Archive.key_for day i) (Archive.key_for env.merge_day i)
        (obj (set_field (codes "candidate_response") (obj gs) fs)) files
      ∙ ground arith

  with_payload-shown :
      with_payload (raw_base i row) shown_payload
      ≡ ok (record (raw_base i row) {
        primary_response = as_dict (get_field (codes "primary_response") fs);
        candidate_response = shown_candidate;
        primary_content =
            extract_message_content (as_dict (get_field (codes "primary_response") fs));
        candidate_content = extract_message_content shown_candidate;
      })
  unfolding shown_payload text_eq
  with_payload-shown =
      elim (Bool-cases (text_eq (Archive.key_for day i) (Archive.key_for env.merge_day i))) [
        | inl same ↦ rw (
          same,
          get_field-set_field (codes "primary_response") (codes "candidate_response") (obj gs) fs,
          get_field-set_field (codes "candidate_response") (codes "candidate_response") (obj gs) fs,
        )
        | inr other ↦ rw other
      ]

  -- A request whose payload was archived on one day, and whose candidate then replied on a day that may
  -- be another, with the database and the archive up: the raw endpoint answers with the archived primary
  -- response and its content. It shows the candidate's reply if both days give the same object key, and
  -- otherwise whatever candidate response the payload was archived with.
  pub get_evaluation_raw-handle :
      let (w', _) = handle h env i w in
      get_evaluation_raw up i w'.rows w'.raw
      ≡ ok (record (raw_base i row) {
        primary_response = as_dict (get_field (codes "primary_response") fs);
        candidate_response = shown_candidate;
        primary_content =
            extract_message_content (as_dict (get_field (codes "primary_response") fs));
        candidate_content = extract_message_content shown_candidate;
      })
  get_evaluation_raw-handle =
      let resp : ChatResponse = record { content = content; raw = obj gs } in
      let patch = result_patch env (evaluate h.python h.evaluator text content) in
      let marked_row = finalized_row env.finalized_at patch (in_progress_row env.marked_at row) in
      let (_, rows) =
        handle_replied h env i w at fine get_up mark_up finalize_up (Archive.key_for day i) files fs
          req resp text has nonempty raw stored load_up built accepted reply primary in
      let found = get-handled i env.finalized_at env.marked_at patch w.rows at in
      rw (rows, handle-raw)
        (get_evaluation_raw-found i (Archive.key_for day i)
            (finalize env.finalized_at i patch (mark_in_progress env.marked_at i w.rows))
            merged_files shown_payload {row = marked_row} found
            (finalized-key env.finalized_at env.marked_at patch row ∙ has) nonempty get-merged_files
          ∙ rw (raw_base-handled i env.finalized_at env.marked_at patch row refl)
              with_payload-shown)
