-- ===== src/Tests/Shadow.antt =====
-- One concrete request from the chat to the verdict.
use llm_shadow_proxy.Base.{◌≡◌, refl, none, some}
use llm_shadow_proxy.Base.Text.{codes, text_eq}
use llm_shadow_proxy.Base.Json.{str, arr, obj, nil, cons, end, field, get_field}
use llm_shadow_proxy.Evaluator.{evaluate}
use llm_shadow_proxy.Store.{get, pending_row, in_progress_row, finalized_row}
use llm_shadow_proxy.Llm.{ChatResponse, replied}
use llm_shadow_proxy.Pipeline.World.{returned}
use llm_shadow_proxy.Pipeline.Payloads.{message_content}
use llm_shadow_proxy.Pipeline.Candidate.{handle, result_patch}
use llm_shadow_proxy.Chat.{Arrival, chat}
use llm_shadow_proxy.Chat.Shadowed.{stored_row, chat-handle}
use llm_shadow_proxy.Tests.{python, evaluator, deployment, files, handler, answering, reply}
use llm_shadow_proxy.Tests.Replies.{app, arrival, body, models, default_route}

abbrev primary_reply : ChatResponse
primary_reply = record {
  content = codes "go";
  raw = obj (
      field (codes "choices")
        (arr (
          cons
            (obj
              (field (codes "message") (obj (field (codes "content") (str (codes "go")) end)) end))
            nil))
        end);
}

abbrev shadowed : Arrival
shadowed = record arrival { answer = λ req. replied primary_reply }

new_id : get (codes "n") deployment.rows ≡ none
unfolding get text_eq pending_row
new_id = refl

go_in_reply : message_content primary_reply.raw ≡ some (str (codes "go"))
unfolding message_content get_field text_eq
go_in_reply = refl

chat-handle_example :
    let (w, e) =
      handle handler (answering (replied reply)) (codes "n") (chat shadowed body app).0.world in
    (e ≡ returned)
    × (get (codes "n") w.rows
        ≡ some (
            finalized_row 30
              (result_patch
                (answering (replied reply))
                (evaluate python evaluator (codes "go") reply.content))
              (in_progress_row 20 (
                stored_row shadowed body app models primary_reply files default_route refl refl refl
                  refl new_id))))
chat-handle_example =
    chat-handle shadowed body app models primary_reply files default_route refl refl refl refl
      new_id handler (answering (replied reply)) (codes "go") reply refl refl refl refl go_in_reply
      refl refl
