-- ===== src/Pipeline/Candidate/Archive.antt =====
-- Where the handler puts the candidate's response (`_merge_candidate_into_raw` of
-- src/shadow_proxy/pipeline.py).
use llm_shadow_proxy.Base.{◌≡◌, refl, true, false, Option, none, some, arith, if◌then◌else◌}
use llm_shadow_proxy.Base.Text.{Text, codes, text_eq, is_empty}
use llm_shadow_proxy.Base.Json.{Value, obj, Fields, set_field}
use llm_shadow_proxy.Raw
use llm_shadow_proxy.Raw.Keys.{request_id_of_key-key_for, get-write}
use llm_shadow_proxy.Pipeline.World.{World, returned}
use llm_shadow_proxy.Pipeline.Payloads.{Surroundings, put_response, merge_candidate_into_raw}

-- What the archive gives for a key.
abbrev pub archive_of : Text → World → Option Value
archive_of j w = elim w.raw [ none ↦ none | some files ↦ Raw.get j files ]

is_empty-key_for : (day request_id : Text) → is_empty (Raw.key_for day request_id) ≡ false
unfolding Raw.key_for
is_empty-key_for day request_id = refl

-- A payload that was archived on one day under a request id without a slash, merged on a day that
-- may be another, where the archive's get and put work: the call returns, the payload with the response stands under the key of the day of the merge, and
-- every other key reads as before. So past midnight the key in the row still gives the payload
-- without the response.
pub merge_candidate_into_raw_lem :
    (env : Surroundings) (day request_id : Text) (response : Value) (w : World) (files : Raw.Files)
    (fs : Fields)
    → Raw.has_slash request_id ≡ false
    → w.raw ≡ some files
    → Raw.get (Raw.key_for day request_id) files ≡ some (obj fs)
    → env.merge_get_up ≡ true
    → env.merge_put_up ≡ true
    → let (w', e) = merge_candidate_into_raw env (some (Raw.key_for day request_id)) response w in
      (e ≡ returned)
      × ((j : Text)
          → archive_of j w' ≡ (
              if text_eq j (Raw.key_for env.merge_day request_id)
              then put_response response (obj fs)
              else Raw.get j files))
unfolding merge_candidate_into_raw Raw.put
merge_candidate_into_raw_lem env day request_id response w files fs flat raw stored got put =
    let nonempty : is_empty (Raw.key_for day request_id) ≡ false =
      is_empty-key_for day request_id in
    let same_id : Raw.request_id_of_key (Raw.key_for day request_id) ≡ request_id =
      request_id_of_key-key_for day request_id flat in
    (
      ground arith,
      λ j. ground (
        arith,
        get-write j (Raw.key_for env.merge_day request_id)
            (obj (set_field (codes "candidate_response") response fs)) files,
      ),
    )
