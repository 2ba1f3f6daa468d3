-- ===== src/Evaluations/Archived.antt =====
-- `get_evaluation_raw` of src/shadow_proxy/api/v1/evaluations.py: the archived payload of a request.
use llm_shadow_proxy.Base.{Option, none, some, ◌++◌, if◌then◌else◌}
use llm_shadow_proxy.Base.Text.{Text, codes, is_empty}
use llm_shadow_proxy.Base.Json.{Value, str, obj, Fields, get_field}
use llm_shadow_proxy.Store.{ComparisonRecord, Table, get}
use llm_shadow_proxy.Raw as Archive
use llm_shadow_proxy.Pipeline.Payloads.{message_content}
use llm_shadow_proxy.Evaluations.{Reply, ok, not_found, server_error}

pub record RawOut : Type 0 where
  pub request_id : Text
  pub raw_object_key : Option Text
  pub primary_model : Text
  pub candidate_model : Text
  pub primary_content : Option Text
  pub candidate_content : Option Text
  pub primary_response : Option Fields
  pub candidate_response : Option Fields
  pub primary_error : Option Text
  pub candidate_error : Option Text
  pub detail : Option Text

abbrev text_of : Option Value → Option Text
text_of (some (str s)) = some s
text_of _ = none

-- `_extract_message_content`; an empty dictionary has no choices either.
unfoldable pub extract_message_content : Option Fields → Option Text
extract_message_content none = none
extract_message_content (some fs) = text_of (message_content (obj fs))

-- `resp if isinstance(resp, dict) else None`
abbrev pub as_dict : Option Value → Option Fields
as_dict (some (obj fs)) = some fs
as_dict _ = none

-- What `raw_store.get` does: it answers, or raises an error with its text. A key that is missing is a
-- `FileNotFoundError`.
pub data Disk : Type 0 where
  up : Disk
  down : Text → Disk

abbrev without_payload : Text → RawOut → RawOut
without_payload detail base = record base { detail = some detail }

-- A payload that is no dictionary has no `get`.
abbrev pub with_payload : RawOut → Value → Reply RawOut
with_payload base (obj fs) =
    let primary = as_dict (get_field (codes "primary_response") fs) in
    let candidate = as_dict (get_field (codes "candidate_response") fs) in
    ok (record base {
      primary_response = primary;
      candidate_response = candidate;
      primary_content = extract_message_content primary;
      candidate_content = extract_message_content candidate;
    })
with_payload base _ = server_error

abbrev pub read_payload : Disk → RawOut → Text → Archive.Files → Reply RawOut
read_payload (down error) base key files =
    ok (without_payload (codes "raw payload unavailable: " ++ error) base)
read_payload up base key files = elim (Archive.get key files) [
  | none ↦ ok (without_payload (codes "raw payload missing (may have been evicted)") base)
  | some payload ↦ with_payload base payload
]

abbrev pub raw_base : Text → ComparisonRecord → RawOut
raw_base request_id row = record {
  request_id = request_id;
  raw_object_key = row.raw_object_key;
  primary_model = row.primary_model;
  candidate_model = row.candidate_model;
  primary_content = none;
  candidate_content = none;
  primary_response = none;
  candidate_response = none;
  primary_error = row.primary_error;
  candidate_error = row.candidate_error;
  detail = none;
}

abbrev pub read_key : Disk → RawOut → Option Text → Archive.Files → Reply RawOut
read_key disk base none files =
    ok (without_payload (codes "no raw payload archived for this request") base)
read_key disk base (some key) files =
    if is_empty key
    then ok (without_payload (codes "no raw payload archived for this request") base)
    else read_payload disk base key files

abbrev pub read_raw : Disk → RawOut → Option Text → Option Archive.Files → Reply RawOut
read_raw disk base key none = ok (without_payload (codes "raw store not configured") base)
read_raw disk base key (some files) = read_key disk base key files

unfoldable pub get_evaluation_raw : Disk → Text → Table → Option Archive.Files → Reply RawOut
get_evaluation_raw disk request_id rows raw = elim (get request_id rows) [
  | none ↦ not_found
  | some row ↦ read_raw disk (raw_base request_id row) row.raw_object_key raw
]
