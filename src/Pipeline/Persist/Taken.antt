-- ===== src/Pipeline/Persist/Taken.antt =====
-- What `persist_pending` (src/shadow_proxy/pipeline.py) does where all is up, with a new request id and
-- with one that is taken.
use llm_shadow_proxy.Base.{
  ◌≡◌, refl, ◌∙◌, sym, ◌⊎◌, inl, inr, true, none, some, Option-cases, arith, any, is_some,
  if◌then◌else◌, ◌∷◌, [],
}
use llm_shadow_proxy.Base.Text.{Text}
use llm_shadow_proxy.Base.Text.Laws.{text_eq_self}
use llm_shadow_proxy.Evaluator.{Python}
use llm_shadow_proxy.Store.{PendingComparison, Table, has_id, pending_row, insert_pending, get}
use llm_shadow_proxy.Store.Updates.{any-has_id, insert_pending-eq, get-insert_pending}
use llm_shadow_proxy.Raw
use llm_shadow_proxy.Pipeline.World.{World, returned, raised}
use llm_shadow_proxy.Pipeline.Payloads.{Surroundings, load_request_body}
use llm_shadow_proxy.Pipeline.Persist.{
  PrimaryOutcome, Submission, payload, archive_payload, pending_comparison, persist_pending,
}
use llm_shadow_proxy.Pipeline.Persist.Durable.{
  archive_key, archive_payload-rows, persist_pending-raw, load_request_body-persist_pending,
}

get-taken : (j : Text) (rows : Table) → any (has_id j) rows ≡ true → is_some (get j rows) ≡ true
unfolding get
get-taken j [] h = cc
get-taken j (row ∷ rows) h = ground (arith, get-taken j rows)

insert_pending-taken :
    (r : PendingComparison) (rows : Table)
    → insert_pending r rows ≡ none
    → is_some (get r.request_id rows) ≡ true
unfolding insert_pending
insert_pending-taken r rows e = get-taken r.request_id rows (ground arith)

module _ (py : Python) (day : Text) (s : Submission) (outcome : PrimaryOutcome) (w : World)
    (files : Raw.Files) (archive : w.raw ≡ some files) where
  abbrev row_to_add : PendingComparison
  row_to_add = pending_comparison py s outcome (some (Raw.key_for day s.request_id))

  archive_key_eq : archive_key py true true day s outcome w ≡ some (Raw.key_for day s.request_id)
  unfolding archive_payload Raw.put
  archive_key_eq = ground arith

  persist_pending-inserts :
      {rows : Table}
      → insert_pending row_to_add w.rows ≡ some rows
      → let (w', e) = persist_pending py true true day s outcome w in
        (w'.rows ≡ rows) × (e ≡ returned)
  unfolding persist_pending
  persist_pending-inserts inserted = (
    ground (arith, archive_key_eq, archive_payload-rows py true true day s outcome w),
    ground (arith, archive_key_eq, archive_payload-rows py true true day s outcome w),
  )

  persist_pending-refused :
      insert_pending row_to_add w.rows ≡ none
      → let (w', e) = persist_pending py true true day s outcome w in
        (w'.rows ≡ w.rows) × (e ≡ (if s.fail_closed then raised else returned))
  unfolding persist_pending
  persist_pending-refused refused = (
    ground (arith, archive_key_eq, archive_payload-rows py true true day s outcome w),
    ground (arith, archive_key_eq, archive_payload-rows py true true day s outcome w),
  )

  -- A new id: the pending row is inserted, and its payload stored.
  pub persist_pending-new :
      get s.request_id w.rows ≡ none
      → let (w', e) = persist_pending py true true day s outcome w in
        (e ≡ returned)
        × (get s.request_id w'.rows ≡ some (pending_row row_to_add))
        × (w'.raw ≡ some (Raw.write (Raw.key_for day s.request_id) (payload s outcome) files))
  unfolding pending_comparison archive_payload Raw.put
  persist_pending-new new = elim (Option-cases (insert_pending row_to_add w.rows)) [
    | inl refused ↦ absurd (ground (arith, new, insert_pending-taken row_to_add w.rows refused))
    | inr (rows, inserted) ↦
        let (grown, e) = persist_pending-inserts inserted in
        (
          e,
          rw
              (
                grown,
                get-insert_pending row_to_add w.rows inserted s.request_id,
                text_eq_self s.request_id,
              )
              refl,
          persist_pending-raw py true true day s outcome w ∙ ground (arith, archive),
        )
  ]

  -- With the archive and the database up, the payload that is loaded under the day's key of the request id
  -- afterwards is the new request's. If the id was new, `persist_pending` returns and the row under
  -- it is the pending one. If the id was taken, the table is as before, an exception comes
  -- under `fail_closed` only, and an earlier payload under that key is replaced all the same.
  pub persist_pending_up :
      (env : Surroundings)
      → env.load_up ≡ true
      → let (w', e) = persist_pending py true true day s outcome w in
        ((load_request_body env (some (Raw.key_for day s.request_id)) w').0 ≡ payload s outcome)
        × (((get s.request_id w.rows ≡ none)
              × (e ≡ returned)
              × (get s.request_id w'.rows ≡ some (pending_row row_to_add)))
            ⊎ ((is_some (get s.request_id w.rows) ≡ true)
                × (w'.rows ≡ w.rows)
                × (e ≡ (if s.fail_closed then raised else returned))))
  unfolding pending_comparison
  persist_pending_up env load =
      let loaded =
        load_request_body-persist_pending py true true day s outcome w env files archive refl
          load in
      (
        rw (sym archive_key_eq) loaded,
        elim (Option-cases (insert_pending row_to_add w.rows)) [
          | inl refused ↦
              let (same, e) = persist_pending-refused refused in
              inr (insert_pending-taken row_to_add w.rows refused, same, e)
          | inr (rows, inserted) ↦
              let (grown, e) = persist_pending-inserts inserted in
              let (fresh, _) = insert_pending-eq row_to_add w.rows inserted in
              inl (
                any-has_id s.request_id w.rows fresh,
                e,
                rw
                    (
                      grown,
                      get-insert_pending row_to_add w.rows inserted s.request_id,
                      text_eq_self s.request_id,
                    )
                    refl,
              )
        ],
      )
