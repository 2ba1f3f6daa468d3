-- ===== src/Tape/Stop.antt =====
-- What the stop of the tape saves and loses (`aclose` of src/shadow_proxy/store/mismatch_tape.py).
use llm_shadow_proxy.Base.{
  ◌≡◌, refl, ap, ◌∙◌, ◌⊎◌, Bool, if◌then◌else◌, true, false, Option, none, some, List, [], ◌∷◌,
  ◌++◌, arith,
}
use llm_shadow_proxy.Queue.{put_nowait, get_nowait}
use llm_shadow_proxy.Tape.{
  TapeRow, MismatchTape, Position, at_head, in_get, over, Insert, commits, rolls_back, breaks,
  getting, await_task, ended, died, writer_at, set_stop, writer_turn, aclose,
}

-- The rows that are still written: the first of the queue, if the writer was already past its look at the
-- flag.
abbrev pub saved : Position → Insert → List (Option TapeRow) → List TapeRow
saved in_get commits (some row ∷ entries) = row ∷ []
saved _ _ _ = []

-- Whether the writer ends by an exception: it had one before, or the rollback of that row fails.
abbrev pub dies : Position → Insert → List (Option TapeRow) → Bool
dies over _ _ = true
dies in_get breaks (some row ∷ entries) = true
dies _ _ _ = false

-- A stopped tape that has got the saved rows, and no other, and whose writer is at its end after two turns.
pub record IsFinal (position : Position) (insert : Insert) (t t' : MismatchTape) : Type 0 where
  pub stopped : t'.stopped ≡ true
  pub written : t'.written ≡ t.written ++ saved position insert t.queue.items
  pub ends :
      writer_turn insert (writer_turn insert (writer_at position (set_stop t)))
      ≡ (if dies position insert t.queue.items then died t' else ended t')

set_stop-stopped : (t : MismatchTape) → (set_stop t).stopped ≡ true
unfolding set_stop
set_stop-stopped t = ground arith

set_stop-written : (t : MismatchTape) → (set_stop t).written ≡ t.written
unfolding set_stop
set_stop-written t = ground arith

-- In the queue nothing is taken away or put in front.
set_stop-items :
    (t : MismatchTape)
    → ((set_stop t).queue.items ≡ t.queue.items)
      ⊎ ((set_stop t).queue.items ≡ t.queue.items ++ none ∷ [])
unfolding set_stop put_nowait
set_stop-items t = ground arith

append_nil : (rows : List TapeRow) → rows ++ [] ≡ rows
append_nil [] = refl
append_nil (row ∷ rows) = ap (λ r. row ∷ r) (append_nil rows)

-- The sentinel behind a queue changes nothing of that.
saved-sentinel :
    (insert : Insert) (xs entries : List (Option TapeRow))
    → (entries ≡ xs) ⊎ (entries ≡ xs ++ none ∷ [])
    → (saved in_get insert entries ≡ saved in_get insert xs)
      × (dies in_get insert entries ≡ dies in_get insert xs)
saved-sentinel commits [] entries h = ground arith
saved-sentinel rolls_back [] entries h = ground arith
saved-sentinel breaks [] entries h = ground arith
saved-sentinel insert (x ∷ xs) entries h = ground arith

-- The last turns of a writer in `get` on a stopped tape.
writer_turn-getting :
    (insert : Insert) (u : MismatchTape) (entries : List (Option TapeRow))
    → u.stopped ≡ true
    → u.queue.items ≡ entries
    → (u' : MismatchTape) × (u'.stopped ≡ true)
      × (u'.written ≡ u.written ++ saved in_get insert entries)
      × (writer_turn insert (writer_turn insert (getting u))
          ≡ (if dies in_get insert entries then died u' else ended u'))
unfolding writer_turn get_nowait
writer_turn-getting insert u [] stop e =
    (u, stop, ground (arith, append_nil u.written), ground arith)
writer_turn-getting insert u (none ∷ entries) stop e = (
  record u { queue = record u.queue { items = entries } },
  stop,
  ground (arith, append_nil u.written),
  ground arith,
)
writer_turn-getting commits u (some row ∷ entries) stop e = (
  record u { queue = record u.queue { items = entries }; written = u.written ++ row ∷ [] },
  stop,
  refl,
  ground arith,
)
writer_turn-getting rolls_back u (some row ∷ entries) stop e = (
  record u { queue = record u.queue { items = entries } },
  stop,
  ground (arith, append_nil u.written),
  ground arith,
)
writer_turn-getting breaks u (some row ∷ entries) stop e = (
  record u { queue = record u.queue { items = entries } },
  stop,
  ground (arith, append_nil u.written),
  ground arith,
)

-- What the wait finds of a writer at its end.
await_end : (bad : Bool) (u : MismatchTape) → (await_task (if bad then died u else ended u)).0 ≡ u
await_end true u = refl
await_end false u = refl

pub aclose-IsFinal :
    (position : Position) (insert : Insert) (t : MismatchTape)
    → IsFinal position insert t (aclose position insert t).0
unfolding aclose writer_turn
aclose-IsFinal at_head insert t = record {
  stopped = ground (arith, set_stop-stopped t);
  written = ground (arith, set_stop-stopped t, set_stop-written t, append_nil t.written);
  ends = ground (arith, set_stop-stopped t);
}
aclose-IsFinal in_get insert t =
    let (same_saved, same_dies) =
      saved-sentinel insert t.queue.items (set_stop t).queue.items (set_stop-items t) in
    let (u, stop, written, end) =
      writer_turn-getting insert (set_stop t) (set_stop t).queue.items (set_stop-stopped t) refl in
    let same : (if dies in_get insert (set_stop t).queue.items then died u else ended u)
        ≡ (if dies in_get insert t.queue.items then died u else ended u) =
      ap (λ b. if b then died u else ended u) same_dies in
    let got : (aclose in_get insert t).0 ≡ u =
      ap (λ w. (await_task w).0) (end ∙ same) ∙ await_end (dies in_get insert t.queue.items) u in
    record {
      stopped = ground (arith, got, stop);
      written = ground (arith, got, written, same_saved, set_stop-written t);
      ends = rw got (end ∙ same);
    }
aclose-IsFinal over insert t = record {
  stopped = set_stop-stopped t;
  written = ground (arith, set_stop-written t, append_nil t.written);
  ends = refl;
}

-- Only the exception of the writer comes out of `aclose`.
pub aclose-dies :
    (position : Position) (insert : Insert) (t : MismatchTape)
    → (aclose position insert t).1 ≡ dies position insert t.queue.items
unfolding aclose
aclose-dies position insert t = ground (arith, (aclose-IsFinal position insert t).ends)
