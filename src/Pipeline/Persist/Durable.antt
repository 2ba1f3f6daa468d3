-- ===== src/Pipeline/Persist/Durable.antt =====
-- What is stored once `persist_pending` has returned (src/shadow_proxy/pipeline.py).
use llm_shadow_proxy.Base.{
  ◌≡◌, refl, ◌⊎◌, inl, inr, Bool, true, false, Option, some, Option-cases, Bool-cases, any, arith,
  if◌then◌else◌, ◌∙◌,
}
use llm_shadow_proxy.Base.Text.{Text, text_eq, is_empty}
use llm_shadow_proxy.Base.Text.Laws.{text_eq_self}
use llm_shadow_proxy.Base.Json.{Value}
use llm_shadow_proxy.Evaluator.{Python}
use llm_shadow_proxy.Store.{Table, has_id, pending_row, insert_pending, get}
use llm_shadow_proxy.Store.Updates.{get-insert_pending}
use llm_shadow_proxy.Raw
use llm_shadow_proxy.Raw.Keys.{get-write}
use llm_shadow_proxy.Pipeline.World.{World, returned, raised}
use llm_shadow_proxy.Pipeline.Payloads.{Surroundings, load_request_body}
use llm_shadow_proxy.Pipeline.Persist.{
  PrimaryOutcome, Submission, payload, archive_payload, pending_comparison, try_insert,
  persist_pending,
}

load_request_body-stored :
    (env : Surroundings) (key : Text) (files : Raw.Files) (p : Value) (w : World)
    → is_empty key ≡ false
    → env.load_up ≡ true
    → w.raw ≡ some files
    → Raw.get key files ≡ some p
    → (load_request_body env (some key) w).0 ≡ p
unfolding load_request_body
load_request_body-stored env key files p w nonempty load raw stored = ground arith

pub is_empty-key_for : (day request_id : Text) → is_empty (Raw.key_for day request_id) ≡ false
unfolding Raw.key_for
is_empty-key_for day request_id = refl

module _ (py : Python) (put_up insert_up : Bool) (day : Text) (s : Submission)
    (outcome : PrimaryOutcome) (w : World) where
  -- The key that the archive step gives.
  abbrev pub archive_key : Option Text
  archive_key = (archive_payload put_up day s outcome w).0

  pub archive_payload-rows : (archive_payload put_up day s outcome w).1.rows ≡ w.rows
  unfolding archive_payload
  archive_payload-rows = ground arith

  pub persist_pending-cases :
      let (w', e) = persist_pending py put_up insert_up day s outcome w in
      ((rows : Table) × (insert_pending (pending_comparison py s outcome archive_key) w.rows
          ≡ some rows)
        × (w'.rows ≡ rows)
        × (e ≡ returned))
      ⊎ ((w'.rows ≡ w.rows) × (e ≡ (if s.fail_closed then raised else returned)))
  unfolding persist_pending
  persist_pending-cases =
      let inserted =
        try_insert insert_up (pending_comparison py s outcome archive_key)
          (archive_payload put_up day s outcome w).1.rows in
      elim (Option-cases inserted) [
        | inl refused ↦ inr (ground (arith, archive_payload-rows), ground arith)
        | inr (rows, e) ↦
            inl (rows, ground (arith, archive_payload-rows), ground arith, ground arith)
      ]

  get-inserted :
      {rows : Table}
      → insert_pending (pending_comparison py s outcome archive_key) w.rows ≡ some rows
      → (j : Text)
      → get j rows ≡ (
          if text_eq j s.request_id
          then some (pending_row (pending_comparison py s outcome archive_key))
          else get j w.rows)
  unfolding pending_comparison
  get-inserted inserted j =
      get-insert_pending (pending_comparison py s outcome archive_key) w.rows inserted j

  -- Under `fail_closed`, once `persist_pending` has returned the pending row can be read under the
  -- request's id, and any other key reads as before. An exception leaves the table as it was.
  pub persist_pending_durable :
      (j : Text)
      → s.fail_closed ≡ true
      → text_eq j s.request_id ≡ false
      → let (w', e) = persist_pending py put_up insert_up day s outcome w in
        ((e ≡ returned)
          × (get s.request_id w'.rows
              ≡ some (pending_row (pending_comparison py s outcome archive_key)))
          × (get j w'.rows ≡ get j w.rows))
        ⊎ ((e ≡ raised) × (w'.rows ≡ w.rows))
  persist_pending_durable j closed other = elim persist_pending-cases [
    | inl (rows, inserted, same, done) ↦ inl (
      done,
      rw (same, get-inserted inserted s.request_id, text_eq_self s.request_id),
      rw (same, get-inserted inserted j, other),
    )
    | inr (same, e) ↦ inr (e ∙ rw closed, same)
  ]

  pub persist_pending-raw :
      (persist_pending py put_up insert_up day s outcome w).0.raw
      ≡ (archive_payload put_up day s outcome w).1.raw
  unfolding persist_pending
  persist_pending-raw = ground arith

  -- If there is an archive and its put and get work, the handler's load under the key of the pending row gives back
  -- the payload that was archived: the customer's request and the primary response.
  pub load_request_body-persist_pending :
      (env : Surroundings) (files : Raw.Files)
      → w.raw ≡ some files
      → put_up ≡ true
      → env.load_up ≡ true
      → let (w', _) = persist_pending py put_up insert_up day s outcome w in
        (load_request_body env archive_key w').0 ≡ payload s outcome
  unfolding archive_payload Raw.put
  load_request_body-persist_pending env files raw put load =
      let key = Raw.key_for day s.request_id in
      let p = payload s outcome in
      let key_eq : archive_key ≡ some key = ground arith in
      let kept : (archive_payload put_up day s outcome w).1.raw ≡ some (Raw.write key p files) =
        ground arith in
      let stored : Raw.get key (Raw.write key p files) ≡ some p =
        get-write key key p files ∙ rw (text_eq_self key) in
      rw key_eq (
        load_request_body-stored env key (Raw.write key p files) p
          (persist_pending py put_up insert_up day s outcome w).0
          (is_empty-key_for day s.request_id) load (persist_pending-raw ∙ kept) stored)

  -- The insert fails: by the database, or since the id is taken.
  abbrev pub InsertFails : Type 0
  InsertFails = (insert_up ≡ false) ⊎ (any (has_id s.request_id) w.rows ≡ true)

  -- The insert works.
  abbrev pub Inserts : Type 0
  Inserts = (insert_up ≡ true) × (any (has_id s.request_id) w.rows ≡ false)

  -- An exception leaves `persist_pending` exactly under `fail_closed`, and if the insert fails.
  pub persist_pending_ends :
      let (_, e) = persist_pending py put_up insert_up day s outcome w in
      ((e ≡ returned) × ((s.fail_closed ≡ false) ⊎ Inserts))
      ⊎ ((e ≡ raised) × (s.fail_closed ≡ true) × InsertFails)
  unfolding persist_pending insert_pending pending_comparison
  persist_pending_ends = elim (Bool-cases s.fail_closed) [
    | inl closed ↦ elim (Bool-cases insert_up) [
      | inl up ↦ elim (Bool-cases (any (has_id s.request_id) w.rows)) [
        | inl taken ↦ inr (ground (arith, archive_payload-rows), closed, inr taken)
        | inr free ↦ inl (ground (arith, archive_payload-rows), inr (up, free))
      ]
      | inr down ↦ inr (ground arith, closed, inl down)
    ]
    | inr lax ↦ inl (ground arith, inl lax)
  ]
