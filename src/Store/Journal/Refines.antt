-- ===== src/Store/Journal/Refines.antt =====
-- The writes of src/shadow_proxy/store/sql.py make moves of the journal only.
use llm_shadow_proxy.Base.{
  ℕ, ◌+◌, ◌≤◌, ◌≡◌, refl, ap, false, Option, none, some, arith, inl, inr, Bool-cases, Option-cases,
}
use llm_shadow_proxy.Base.Text.{Text, text_eq}
use llm_shadow_proxy.Base.Text.Laws.{text_eq_iff}
use llm_shadow_proxy.Store.{
  CandidateStatus, PendingComparison, FinalizePatch, ComparisonRecord, Table, pending_row,
  insert_pending, update, in_progress_row, mark_in_progress, finalized_row, finalize, get,
}
use llm_shadow_proxy.Store.Queries.{is_open}
use llm_shadow_proxy.Store.Updates.{
  KeepsId, in_progress_row-KeepsId, finalized_row-KeepsId, get-update, get-insert_pending,
  insert_pending-eq, any-has_id,
}
use llm_shadow_proxy.Store.Journal.{
  Edits, unchanged, inserted, marked, finalized, waiting, asked, closed, phase_of, Entry, entry_of,
  entry, Move, submit, ask, close, Moves, here, next,
}

entry_of-pending_row :
    (r : PendingComparison)
    → entry_of (pending_row r) ≡ record { submission = r; attempts = 0; phase = waiting }
unfolding pending_row
entry_of-pending_row r = refl

entry_of-in_progress_row :
    (now : ℕ) (row : ComparisonRecord)
    → entry_of (in_progress_row now row)
      ≡ record (entry_of row) { attempts = row.attempt_count + 1; phase = asked }
unfolding in_progress_row
entry_of-in_progress_row now row = refl

phase_of-closed : (s : CandidateStatus) → is_open s ≡ false → phase_of s ≡ closed
phase_of-closed CandidateStatus.pending h = cc
phase_of-closed CandidateStatus.in_progress h = cc
phase_of-closed CandidateStatus.ok h = refl
phase_of-closed CandidateStatus.error h = refl
phase_of-closed CandidateStatus.timeout_stale h = refl
phase_of-closed CandidateStatus.dropped h = refl

entry_of-finalized_row :
    (now : ℕ) (patch : FinalizePatch) (row : ComparisonRecord)
    → is_open patch.candidate_status ≡ false
    → entry_of (finalized_row now patch row) ≡ record (entry_of row) { phase = closed }
unfolding finalized_row
entry_of-finalized_row now patch row h =
    ap (λ p. record (entry_of row) { phase = p }) (phase_of-closed patch.candidate_status h)

-- An update moves the entry of its own key, if there is one, and no other.
update-Moves :
    (i j : Text) (f : ComparisonRecord → ComparisonRecord) (rows : Table)
    → KeepsId f
    → ((row : ComparisonRecord) → Move (some (entry_of row)) (some (entry_of (f row))))
    → Moves (entry j rows) (entry j (update i f rows))
update-Moves i j f rows keeps move = elim (Bool-cases (text_eq i j)) [
  | inr other ↦ rw (get-update i j f rows keeps, other) here
  | inl same ↦ elim (Option-cases (get j rows)) [
    | inl missing ↦ rw (get-update i j f rows keeps, same, missing) here
    | inr (row, at) ↦ rw (get-update i j f rows keeps, same, at) (next here (move row))
  ]
]

mark_in_progress-Moves :
    (now : ℕ) (i j : Text) (rows : Table)
    → Moves (entry j rows) (entry j (mark_in_progress now i rows))
unfolding mark_in_progress
mark_in_progress-Moves now i j rows =
    update-Moves i j (in_progress_row now) rows (in_progress_row-KeepsId now)
      (λ row. ask refl (ap some (entry_of-in_progress_row now row)))

finalize-Moves :
    (now : ℕ) (i j : Text) (patch : FinalizePatch) (rows : Table)
    → is_open patch.candidate_status ≡ false
    → Moves (entry j rows) (entry j (finalize now i patch rows))
unfolding finalize
finalize-Moves now i j patch rows h =
    update-Moves i j (finalized_row now patch) rows (finalized_row-KeepsId now patch)
      (λ row. close refl (ap some (entry_of-finalized_row now patch row h)))

insert_pending-Moves :
    (r : PendingComparison) (j : Text) (rows : Table) {new : Table}
    → insert_pending r rows ≡ some new
    → Moves (entry j rows) (entry j new)
insert_pending-Moves r j rows ok = elim (Bool-cases (text_eq j r.request_id)) [
  | inr other ↦ rw (get-insert_pending r rows ok j, other) here
  | inl same ↦
      let absent : get j rows ≡ none =
        rw ((text_eq_iff j r.request_id).0 same)
          (any-has_id r.request_id rows (insert_pending-eq r rows ok).0) in
      rw (get-insert_pending r rows ok j, same, absent)
        (next here (submit r refl (ap some (entry_of-pending_row r))))
]

Moves-trans : {a b c : Option Entry} → Moves a b → Moves b c → Moves a c
Moves-trans m here = m
Moves-trans m (next n step) = next (Moves-trans m n) step

-- Whatever is written, the journal of every key goes on by moves.
pub Edits-Moves :
    {rows new : Table} (j : Text) → Edits rows new → Moves (entry j rows) (entry j new)
Edits-Moves j unchanged = here
Edits-Moves j (inserted {mid} r e ok) =
    Moves-trans (Edits-Moves j e) (insert_pending-Moves r j mid ok)
Edits-Moves j (marked {mid} now i e eq) =
    Moves-trans (Edits-Moves j e) (rw eq (mark_in_progress-Moves now i j mid))
Edits-Moves j (finalized {mid} now i patch e final eq) =
    Moves-trans (Edits-Moves j e) (rw eq (finalize-Moves now i j patch mid final))

-- What the moves keep: an entry stays, with its submission, and its attempts only grow.
pub Moves-kept :
    {e : Entry} {a b : Option Entry}
    → a ≡ some e
    → Moves a b
    → (e' : Entry) × (b ≡ some e') × (e'.submission ≡ e.submission) × (e.attempts ≤ e'.attempts)
Moves-kept {e} at here = (e, at, refl, omega arith)
Moves-kept at (next m (submit r fresh new)) = let (e', was, _, _) = Moves-kept at m in absurd (cc)
Moves-kept at (next m (ask {e = old} was new)) =
    let (e', now, same, more) = Moves-kept at m in
    (record old { attempts = old.attempts + 1; phase = asked }, new, ground arith, ground arith)
Moves-kept at (next m (close {e = old} was new)) =
    let (e', now, same, more) = Moves-kept at m in
    (record old { phase = closed }, new, ground arith, ground arith)
