-- ===== src/Tests/Endpoints.antt =====
-- The evaluation endpoints, the hash and the places of files on concrete data.
use llm_shadow_proxy.Base.{◌≡◌, refl, ◌↔◌, true, none, some}
use llm_shadow_proxy.Base.Text.{codes, text_eq}
use llm_shadow_proxy.Base.Json.{null, bool, obj, end, field, get_field, truthy}
use llm_shadow_proxy.Store.{pending_row}
use llm_shadow_proxy.Raw
use llm_shadow_proxy.Llm.{replied}
use llm_shadow_proxy.Pipeline.Payloads.{build_request, primary_content_from_raw, message_content}
use llm_shadow_proxy.Pipeline.Candidate.{handle}
use llm_shadow_proxy.Hashing.{canonicalize}
use llm_shadow_proxy.Hashing.Reordering.{Reordered, canonicalize_iff}
use llm_shadow_proxy.Paths.{Places}
use llm_shadow_proxy.Paths.Resolution.{IsResolving}
use llm_shadow_proxy.Evaluations.{ok}
use llm_shadow_proxy.Evaluator.{Verdict}
use llm_shadow_proxy.Store.Queries.{EvaluationFilters}
use llm_shadow_proxy.Evaluations.Archived.{
  up, as_dict, extract_message_content, raw_base, get_evaluation_raw,
}
use llm_shadow_proxy.Evaluations.Payload.{get_evaluation_raw-handle}
use llm_shadow_proxy.Tests.{
  archived_row, handler, answering, reply, deployment, day, files, payload_fields,
}
use llm_shadow_proxy.Tests.Calls.{rebuilt, archived_at, stored_at}
use llm_shadow_proxy.Tests.Runs.{machine}

-- The rows of one route that wait, received by a given time.
abbrev filters : EvaluationFilters
filters = record {
  verdict = some Verdict.pending;
  since = none;
  until = some 50;
  route = some (codes "default");
  tenant_id = none;
  limit = 2;
  offset = 0;
}

canonicalize_iff_example :
    (canonicalize (obj (field (codes "b") null (field (codes "a") (bool true) end)))
      ≡ canonicalize (obj (field (codes "a") (bool true) (field (codes "b") null end))))
    ↔ Reordered
        (obj (field (codes "b") null (field (codes "a") (bool true) end)))
        (obj (field (codes "a") (bool true) (field (codes "b") null end)))
canonicalize_iff_example =
    canonicalize_iff (obj (field (codes "b") null (field (codes "a") (bool true) end)))
      (obj (field (codes "a") (bool true) (field (codes "b") null end)))

-- The candidate replies on another day, so its reply is not shown.
get_evaluation_raw-handle_example :
    let (w', _) = handle handler (answering (replied reply)) (codes "a") deployment in
    get_evaluation_raw up (codes "a") w'.rows w'.raw
    ≡ ok (record (raw_base (codes "a") archived_row) {
      primary_response = as_dict (get_field (codes "primary_response") payload_fields);
      candidate_response = none;
      primary_content =
          extract_message_content (as_dict (get_field (codes "primary_response") payload_fields));
      candidate_content = extract_message_content none;
    })
unfolding build_request primary_content_from_raw message_content get_field truthy text_eq
    pending_row Raw.key_for
get_evaluation_raw-handle_example =
    get_evaluation_raw-handle handler (answering (replied reply)) (codes "a") day deployment files
      payload_fields end rebuilt (codes " GO ") (codes "go") archived_at refl refl refl refl refl
      refl refl refl refl refl stored_at refl refl refl refl

machine-IsResolving : IsResolving machine
machine-IsResolving = record { absolute = λ p. refl; no_home = λ p. refl; again = λ p. refl }

abbrev places : Places
places = record {
  config_file = codes "/c";
  raw_store_filesystem_path = codes "/r";
  database_url = codes "sqlite+aiosqlite:///d";
  env_file = none;
}
