-- ===== src/Tests/Recovery.antt =====
-- A crash while a handler is at work and the recovery after it, and a failing sweep, on concrete data.
use llm_shadow_proxy.Base.{◌≡◌, refl, true, false, none, [], ◌∷◌, arith, tally}
use llm_shadow_proxy.Base.Text.{Text, codes, text_eq}
use llm_shadow_proxy.Base.Json.{get_field}
use llm_shadow_proxy.Store.{
  get, update, mark_in_progress, in_progress_row, finalize, finalized_row, pending_row,
}
use llm_shadow_proxy.Store.Queries.{is_unfinished, is_stale, find_all_unfinished}
use llm_shadow_proxy.Raw
use llm_shadow_proxy.Llm.{timed_out}
use llm_shadow_proxy.Dispatcher.{drop_old}
use llm_shadow_proxy.Pipeline.Payloads.{Surroundings, load_request_body, build_request}
use llm_shadow_proxy.Pipeline.Candidate.{
  handle, handle_row, call_candidate, on_request, finalize_error, write_final,
}
use llm_shadow_proxy.Pipeline.Candidate.Backlog.{handle_all}
use llm_shadow_proxy.Evaluations.Runtime.{put_runtime_config}
use llm_shadow_proxy.Sweeper.Loop.{Round, run, run-is_stale}
use llm_shadow_proxy.System.{Deployment, Reach}
use llm_shadow_proxy.System.Recovery.{unfinished_ids, reborn, recovers}
use llm_shadow_proxy.Tests.{database, database-IsComplete, table, handler, answering}
use llm_shadow_proxy.Tests.Jobs.{table-IsKeyed}
use llm_shadow_proxy.Tests.Runs.{tuned}

abbrev slow : Text → Surroundings
slow i = answering (timed_out (codes "slow"))

all_return :
    (handle_all handler slow (unfinished_ids tuned database) (reborn none tuned.app.world)).1 ≡ true
unfolding find_all_unfinished mark_in_progress in_progress_row update pending_row text_eq get handle
    handle_row call_candidate load_request_body on_request finalize_error write_final finalize
    finalized_row put_runtime_config build_request Raw.key_for Raw.get get_field
all_return = refl

recovers_example :
    (t : Deployment) × Reach tuned t
    × (tally is_unfinished t.app.world.rows ≡ 0)
    × (t.app.dispatcher.queue.items ≡ [])
    × (t.calls ≡ [])
unfolding pending_row mark_in_progress in_progress_row update text_eq put_runtime_config
recovers_example =
    recovers tuned database handler slow 2 1 drop_old none database-IsComplete (omega arith)
      (omega arith) (omega arith) (omega arith) all_return

-- A round at which the database fails at the first row, and one without a failure.
abbrev failing : Round
failing = record { broken = λ i. true; asked = 80; now = 81 }

abbrev quiet : Round
quiet = record { broken = λ i. false; asked = 100; now = 101 }

run-is_stale_example :
    tally (is_stale 100 50) (run database 50 (failing ∷ quiet ∷ []) table 0).0 ≡ 0
unfolding is_stale pending_row
run-is_stale_example =
    run-is_stale database 50 (failing ∷ []) quiet table 0 database-IsComplete table-IsKeyed
      (λ i. refl) (omega arith)
