-- ===== src/Store/Journal.antt =====
-- What the comparisons table (src/shadow_proxy/store/sql.py) promises for each key, whatever the other
-- columns hold: a journal entry, and the moves that it may make.
pub mod Refines
use mathlib.Core.Option
use llm_shadow_proxy.Base.{ℕ, ◌+◌, ◌≡◌, false, Option, none, some}
use llm_shadow_proxy.Base.Text.{Text}
use llm_shadow_proxy.Store.{
  CandidateStatus, PendingComparison, FinalizePatch, ComparisonRecord, Table, insert_pending,
  in_progress_row, mark_in_progress, finalized_row, finalize, get,
}
use llm_shadow_proxy.Store.Queries.{is_open}
use llm_shadow_proxy.Store.Updates.{in_progress_row-KeepsId, finalized_row-KeepsId}
use llm_shadow_proxy.Store.Keyed.{IsKeyed, update-IsKeyed, insert_pending-IsKeyed}

-- The writes of a run, one after the other; a patch that is written closes its row.
pub data Edits (rows : Table) : Table → Type 0 where
  unchanged : Edits rows rows
  inserted :
      {mid new : Table} (r : PendingComparison)
      → Edits rows mid
      → insert_pending r mid ≡ some new
      → Edits rows new
  marked :
      {mid new : Table} (now : ℕ) (i : Text)
      → Edits rows mid
      → new ≡ mark_in_progress now i mid
      → Edits rows new
  finalized :
      {mid new : Table} (now : ℕ) (i : Text) (patch : FinalizePatch)
      → Edits rows mid
      → is_open patch.candidate_status ≡ false
      → new ≡ finalize now i patch mid
      → Edits rows new

pub Edits-trans : {a b c : Table} → Edits a b → Edits b c → Edits a c
Edits-trans e unchanged = e
Edits-trans e (inserted r f h) = inserted r (Edits-trans e f) h
Edits-trans e (marked now i f h) = marked now i (Edits-trans e f) h
Edits-trans e (finalized now i patch f final h) = finalized now i patch (Edits-trans e f) final h

pub Edits-IsKeyed : {rows new : Table} → Edits rows new → IsKeyed rows → IsKeyed new
unfolding mark_in_progress finalize
Edits-IsKeyed unchanged h = h
Edits-IsKeyed (inserted {mid} r e ok) h = insert_pending-IsKeyed r mid ok (Edits-IsKeyed e h)
Edits-IsKeyed (marked {mid} now i e eq) h =
    rw eq
      (update-IsKeyed i (in_progress_row now) mid (in_progress_row-KeepsId now) (Edits-IsKeyed e h))
Edits-IsKeyed (finalized {mid} now i patch e final eq) h = rw eq (
    update-IsKeyed i (finalized_row now patch) mid (finalized_row-KeepsId now patch)
      (Edits-IsKeyed e h))

-- A request waits, its candidate has been asked, or it is closed.
pub data Phase : Type 0 where
  waiting asked closed : Phase

abbrev pub phase_of : CandidateStatus → Phase
phase_of CandidateStatus.pending = waiting
phase_of CandidateStatus.in_progress = asked
phase_of _ = closed

-- What was submitted, how often the candidate was asked, and how it stands.
pub record Entry : Type 0 where
  pub submission : PendingComparison
  pub attempts : ℕ
  pub phase : Phase

abbrev pub submission_of : ComparisonRecord → PendingComparison
submission_of row = record {
  request_id = row.request_id;
  received_at = row.received_at;
  route = row.route;
  tenant_id = row.tenant_id;
  session_id = row.session_id;
  request_hash = row.request_hash;
  raw_object_key = row.raw_object_key;
  primary_model = row.primary_model;
  primary_status = row.primary_status;
  primary_latency_ms = row.primary_latency_ms;
  primary_action = row.primary_action;
  primary_error = row.primary_error;
  candidate_model = row.candidate_model;
}

abbrev pub entry_of : ComparisonRecord → Entry
entry_of row = record {
  submission = submission_of row;
  attempts = row.attempt_count;
  phase = phase_of row.candidate_status;
}

-- The journal of a table, by key.
abbrev pub entry : Text → Table → Option Entry
entry i rows = Option.map entry_of (get i rows)

-- A key is submitted once; its submission then stays, the candidate may be asked again at any time, and
-- the entry may be closed at any time.
pub data Move (a b : Option Entry) : Type 0 where
  submit :
      (r : PendingComparison)
      → a ≡ none
      → b ≡ some (record { submission = r; attempts = 0; phase = waiting })
      → Move a b
  ask :
      {e : Entry}
      → a ≡ some e
      → b ≡ some (record e { attempts = e.attempts + 1; phase = asked })
      → Move a b
  close : {e : Entry} → a ≡ some e → b ≡ some (record e { phase = closed }) → Move a b

pub data Moves (a : Option Entry) : Option Entry → Type 0 where
  here : Moves a a
  next : {b c : Option Entry} → Moves a b → Move b c → Moves a c
