-- ===== src/Main/Closing.antt =====
-- The end of the program (the `finally` block of `lifespan` in src/shadow_proxy/main.py): the sweeper, the
-- dispatcher, the tape, the clients and the store are stopped, in this order.
pub mod Parts
use llm_shadow_proxy.Base.{Bool, true, false, Option, none, some, if◌then◌else◌}
use llm_shadow_proxy.Tape.{Position, Insert, aclose}
use llm_shadow_proxy.Dispatcher.{stopped, draining, raised, stop}
use llm_shadow_proxy.Pipeline.World.{World}
use llm_shadow_proxy.Sweeper.Loop.{SweeperTask, stop_sweeper}
use llm_shadow_proxy.System.{with_dispatcher, with_world}
use llm_shadow_proxy.Chat.{App}

-- A part that is closed, in the order of the block. The archive is closed before the store, and its
-- `aclose` has nothing that raises.
pub data Part : Type 0 where
  tape primary_client candidate_client store : Part

-- How the closing of the parts goes: where the tape's writer is and what becomes of its insert, and whether
-- the `aclose` of the clients and of the store returns.
pub record Fates : Type 0 where
  pub writer : Position
  pub insert : Insert
  pub primary_up : Bool
  pub candidate_up : Bool
  pub store_up : Bool

-- The block came to its end; or it still waits in `join`, while the workers go on; or an exception of the
-- dispatcher left it; or one of a part that it closes.
pub data Closing : Type 0 where
  closed waits : SweeperTask → App → Closing
  broken : Closing
  fails : Part → SweeperTask → App → Closing

-- `mismatch_tape.aclose()`: the state, and whether it raises.
abbrev pub close_tape : Fates → World → World × Bool
close_tape fates w = elim w.tape [
  | none ↦ (w, false)
  | some t ↦
      let (t', raises) = aclose fates.writer fates.insert t in (record w { tape = some t' }, raises)
]

-- The first part whose `aclose` raises; the parts behind it are not closed.
unfoldable pub first_failure : Bool → Fates → Option Part
first_failure tape_raises fates =
    if tape_raises
    then some tape
    else (if fates.primary_up
        then (if fates.candidate_up
            then (if fates.store_up then none else some store)
            else some candidate_client)
        else some primary_client)

-- From the tape on.
unfoldable pub close_parts : Fates → SweeperTask → App → Closing
close_parts fates sweeper app =
    let (world, tape_raises) = close_tape fates app.world in
    elim (first_failure tape_raises fates) [
      | none ↦ closed sweeper (with_world world app)
      | some part ↦ fails part sweeper (with_world world app)
    ]

-- The block, at the moment at which `stop` looks at the count of `join`.
unfoldable pub close : Fates → SweeperTask → App → Closing
close fates sweeper app =
    let sweeper' = stop_sweeper sweeper in
    elim (stop true app.dispatcher) [
      | raised ↦ broken
      | draining d ↦ waits sweeper' (with_dispatcher d app)
      | stopped d ↦ close_parts fates sweeper' (with_dispatcher d app)
    ]
