-- ===== src/Tape.antt =====
-- src/shadow_proxy/store/mismatch_tape.py: the queue of mismatched comparisons and its writer. The
-- SQLite file is the list of the rows committed to it.
pub mod Offers
pub mod Stop
use llm_shadow_proxy.Base.{
  ℕ, Bool, true, false, Option, none, some, List, [], ◌∷◌, ◌++◌, if◌then◌else◌,
}
use llm_shadow_proxy.Base.Text.{Text}
use llm_shadow_proxy.Base.Json.{Value}
use llm_shadow_proxy.Evaluator.{Verdict}
use llm_shadow_proxy.Queue.{Queue, put_nowait, get_nowait}

pub record TapeRow : Type 0 where
  pub request_id : Text
  pub finalized_at : ℕ
  pub route : Text
  pub verdict : Verdict
  pub primary_model : Text
  pub candidate_model : Text
  pub primary_action : Option Text
  pub candidate_action : Option Text
  pub primary_content : Text
  pub candidate_content : Text
  pub primary_latency_ms : ℕ
  pub candidate_latency_ms : ℕ
  pub reasons : List Text
  pub request_body : Value

-- A queue entry is a row, or the sentinel `None` of `aclose`.
pub record MismatchTape : Type 0 where
  pub queue : Queue (Option TapeRow)
  pub stopped : Bool
  pub written : List TapeRow

-- `offer`: the tape, and whether the row was accepted.
unfoldable pub offer : TapeRow → MismatchTape → MismatchTape × Bool
offer row t = elim (put_nowait (some row) t.queue) [
  | some q ↦ (record t { queue = q }, true)
  | none ↦ elim (get_nowait t.queue) [
    | none ↦ (t, false)
    | some (_, shorter) ↦ elim (put_nowait (some row) shorter) [
      | none ↦ (record t { queue = shorter }, false)
      | some q ↦ (record t { queue = q }, true)
    ]
  ]
]

-- Where the writer is, with the tape: at the head of its loop, in the `get` of a round, or at its end,
-- which it comes to by the stop, or by an exception that leaves it (its connection does not open, or a
-- rollback fails).
pub data Writer : Type 0 where
  looping getting ended died : MismatchTape → Writer

-- What becomes of the insert of the next row: it is committed, it fails and is rolled back, or its rollback
-- fails too.
pub data Insert : Type 0 where
  commits rolls_back breaks : Insert

-- A row that the writer got, or the sentinel.
abbrev pub insert_row : Insert → Option TapeRow → MismatchTape → Writer
insert_row insert none t = ended t
insert_row commits (some row) t = looping (record t { written = t.written ++ row ∷ [] })
insert_row rolls_back (some row) t = looping t
insert_row breaks (some row) t = died t

-- The head of `_writer_loop`, which looks at `_stopped`.
abbrev pub look : MismatchTape → Writer
look t = if t.stopped then ended t else getting t

-- The rest of a round, from the `get` on; an empty queue is the timeout.
abbrev pub take_entry : Insert → MismatchTape → Writer
take_entry insert t = elim (get_nowait t.queue) [
  | none ↦ looping t
  | some (entry, q) ↦ insert_row insert entry (record t { queue = q })
]

-- What `_writer_loop` does from one await to the next. Other tasks can come between the look at the flag
-- and the `get`.
unfoldable pub writer_turn : Insert → Writer → Writer
writer_turn insert (looping t) = look t
writer_turn insert (getting t) = take_entry insert t
writer_turn insert (ended t) = ended t
writer_turn insert (died t) = died t

-- `aclose`, up to the wait for the writer.
unfoldable pub set_stop : MismatchTape → MismatchTape
set_stop t = elim (put_nowait none t.queue) [
  | none ↦ record t { stopped = true }
  | some q ↦ record t { stopped = true; queue = q }
]

-- Where the writer is when `aclose` starts to wait for it.
pub data Position : Type 0 where
  at_head in_get over : Position

abbrev pub writer_at : Position → MismatchTape → Writer
writer_at at_head t = looping t
writer_at in_get t = getting t
writer_at over t = died t

-- The wait for the writer: the tape, and whether the exception of the writer is raised again. A writer
-- that has not ended is cancelled.
abbrev pub await_task : Writer → MismatchTape × Bool
await_task (looping t) = (t, false)
await_task (getting t) = (t, false)
await_task (ended t) = (t, false)
await_task (died t) = (t, true)

-- `aclose`, where the writer has two turns while it is waited for. After the stop a writer is at its end
-- by then.
unfoldable pub aclose : Position → Insert → MismatchTape → MismatchTape × Bool
aclose position insert t =
    await_task (writer_turn insert (writer_turn insert (writer_at position (set_stop t))))
