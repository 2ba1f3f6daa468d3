-- ===== src/Chat/Shadowed.antt =====
-- One request on its whole way through src/shadow_proxy: `POST /v1/chat` (api/v1/chat.py), the pending row and
-- the archived payload, and the handler of the candidate's job (pipeline.py).
use llm_shadow_proxy.Base.{◌≡◌, refl, ap, ◌∙◌, true, none, some}
use llm_shadow_proxy.Base.Text.{Text}
use llm_shadow_proxy.Base.Text.Laws.{text_eq_self}
use llm_shadow_proxy.Base.Json.{Value, str}
use llm_shadow_proxy.Evaluator.{evaluate}
use llm_shadow_proxy.Store.{
  ComparisonRecord, is_ok, pending_row, in_progress_row, finalized_row, get,
}
use llm_shadow_proxy.Raw
use llm_shadow_proxy.Raw.Keys.{get-write}
use llm_shadow_proxy.Llm.{ChatResponse, replied}
use llm_shadow_proxy.Pipeline.World.{World, Ending, returned}
use llm_shadow_proxy.Pipeline.Payloads.{CandidateHandler, Surroundings, message_content}
use llm_shadow_proxy.Pipeline.Persist.{payload, pending_comparison, persist_pending}
use llm_shadow_proxy.Pipeline.Persist.Durable.{is_empty-key_for}
use llm_shadow_proxy.Pipeline.Persist.Taken.{persist_pending-new}
use llm_shadow_proxy.Pipeline.Candidate.{handle, result_patch}
use llm_shadow_proxy.Pipeline.Candidate.Outcomes.{get-finalized, handle_replied}
use llm_shadow_proxy.Chat.{
  RouteConfig, find_route, ChatIn, primary_request, App, Arrival, submission, chat,
}
use llm_shadow_proxy.Chat.Stored.{
  replied_outcome, candidate_request, build_request-payload, primary_content_from_raw-payload,
  request, outcome, observed, chat-stored,
}

module _ (arrival : Arrival) (body : ChatIn) (app : App) (cfg : RouteConfig) (resp : ChatResponse)
    (files : Raw.Files) (routed : find_route body.route app.routes ≡ some cfg)
    (answered : arrival.answer (primary_request cfg.primary_model_id body) ≡ replied resp)
    (put_up : arrival.put_up ≡ true) (insert_up : arrival.insert_up ≡ true)
    (archive : app.world.raw ≡ some files)
    (fresh : get arrival.request_id app.world.rows ≡ none) where
  abbrev key : Text
  key = Raw.key_for arrival.day arrival.request_id

  -- The row that the chat stores, and the payload.
  abbrev pub stored_row : ComparisonRecord
  stored_row = pending_row (
      pending_comparison arrival.python (submission arrival body cfg app.fail_closed)
        (replied_outcome arrival.latency_ms resp)
        (some (Raw.key_for arrival.day arrival.request_id)))

  abbrev stored_payload : Value
  stored_payload =
      payload (submission arrival body cfg app.fail_closed)
        (replied_outcome arrival.latency_ms resp)

  fine : is_ok stored_row.primary_status ≡ true
  unfolding pending_row pending_comparison
  fine = refl

  key_of_row : stored_row.raw_object_key ≡ some key
  unfolding pending_row pending_comparison
  key_of_row = refl

  kept : World × Ending
  kept =
      persist_pending arrival.python true true arrival.day
        (request arrival body app cfg resp routed answered)
        (outcome arrival body app cfg resp routed answered)
        (observed arrival body app cfg resp routed answered)

  kept-stored :
      (kept.1 ≡ returned)
      × (get arrival.request_id kept.0.rows ≡ some stored_row)
      × (kept.0.raw ≡ some (Raw.write key stored_payload files))
  unfolding kept
  kept-stored =
      persist_pending-new arrival.python arrival.day
        (request arrival body app cfg resp routed answered)
        (outcome arrival body app cfg resp routed answered)
        (observed arrival body app cfg resp routed answered) files archive fresh

  chat-kept :
      ((chat arrival body app).0.world.rows ≡ kept.0.rows)
      × ((chat arrival body app).0.world.raw ≡ kept.0.raw)
  unfolding kept
  chat-kept =
      let stored = chat-stored arrival body app cfg resp routed answered in
      let same : persist_pending arrival.python arrival.put_up arrival.insert_up arrival.day
            (request arrival body app cfg resp routed answered)
            (outcome arrival body app cfg resp routed answered)
            (observed arrival body app cfg resp routed answered)
          ≡ kept =
        rw (put_up, insert_up) refl in
      let (rows, raw) = stored (ap (λ p. p.1) same ∙ kept-stored.0) in
      (rows ∙ ap (λ p. p.0.rows) same, raw ∙ ap (λ p. p.0.raw) same)

  -- The whole way of a request that the shadow gets: let the route be known, the archive and the database be
  -- up, the request's id be new, and both models reply, the candidate to the customer's own
  -- question. After the chat, the handler's call on the id returns, and the row under it is the
  -- chat's pending row, marked and then finalized with what the evaluator says of the two
  -- models' answers.
  pub chat-handle :
      (h : CandidateHandler) (env : Surroundings) (primary : Text) (reply : ChatResponse)
      → env.get_up ≡ true
      → env.mark_up ≡ true
      → env.finalize_up ≡ true
      → env.load_up ≡ true
      → message_content resp.raw ≡ some (str primary)
      → env.accepts (candidate_request h body) ≡ true
      → env.answer (candidate_request h body) ≡ replied reply
      → let (w, e) = handle h env arrival.request_id (chat arrival body app).0.world in
        (e ≡ returned)
        × (get arrival.request_id w.rows
            ≡ some (
                finalized_row env.finalized_at
                  (result_patch env (evaluate h.python h.evaluator primary reply.content))
                  (in_progress_row env.marked_at stored_row)))
  chat-handle h env primary reply get_up mark_up finalize_up load_up content accepted replies =
      let (rows, raw) = chat-kept in
      let (_, row_at, kept_raw) = kept-stored in
      let at = ap (get arrival.request_id) rows ∙ row_at in
      let (e, final) =
        handle_replied h env arrival.request_id (chat arrival body app).0.world at fine get_up
          mark_up finalize_up key (Raw.write key stored_payload files) _ (candidate_request h body)
          reply primary key_of_row (is_empty-key_for arrival.day arrival.request_id)
          (raw ∙ kept_raw) (get-write key key stored_payload files ∙ rw (text_eq_self key) refl)
          load_up
          (build_request-payload h arrival body cfg app.fail_closed
            (replied_outcome arrival.latency_ms resp))
          accepted replies
          (primary_content_from_raw-payload (submission arrival body cfg app.fail_closed)
            arrival.latency_ms resp primary content) in
      (
        e,
        ap (get arrival.request_id) final
            ∙ get-finalized arrival.request_id env.finalized_at env.marked_at
                (result_patch env (evaluate h.python h.evaluator primary reply.content))
                (chat arrival body app).0.world.rows at,
      )
