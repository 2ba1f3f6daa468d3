-- ===== src/Main/Closing/Parts.antt =====
-- What the `finally` block of `lifespan` in src/shadow_proxy/main.py leaves once the dispatcher has stopped,
-- and which exception leaves it.
use llm_shadow_proxy.Base.{
  ℕ, ◌<◌, ◌≡◌, refl, ◌⊎◌, ◌∙◌, Bool, true, false, not, none, some, Option-cases, Bool-cases, [],
  arith, inl, inr,
}
use llm_shadow_proxy.Tape.{MismatchTape, aclose}
use llm_shadow_proxy.Tape.Stop.{dies, IsFinal, aclose-IsFinal, aclose-dies}
use llm_shadow_proxy.Dispatcher.{stopped, stop}
use llm_shadow_proxy.Sweeper.Loop.{SweeperTask, stop_sweeper}
use llm_shadow_proxy.System.{with_dispatcher, with_world}
use llm_shadow_proxy.Chat.{App}
use llm_shadow_proxy.Main.Closing.{
  Part, Fates, closed, fails, tape, primary_client, candidate_client, store, close_tape,
  first_failure, close_parts, close,
}

-- What the block leaves.
pub record IsClosed (fates : Fates) (app app' : App) : Type 0 where
  pub rows : app'.world.rows ≡ app.world.rows
  pub raw : app'.world.raw ≡ app.world.raw
  pub counters : app'.world.counters ≡ app.world.counters
  pub jobs : app'.dispatcher.queue.items ≡ []
  pub workers : app'.dispatcher.tasks ≡ []
  pub down : app'.dispatcher.running ≡ false
  pub written :
      (t : MismatchTape)
      → app.world.tape ≡ some t
      → (t' : MismatchTape) × (app'.world.tape ≡ some t') × IsFinal fates.writer fates.insert t t'

-- Whether the `aclose` of a part raises.
abbrev pub raises_at : Part → Fates → App → Bool
raises_at tape fates app = elim app.world.tape [
  | none ↦ false
  | some t ↦ dies fates.writer fates.insert t.queue.items
]
raises_at primary_client fates app = not fates.primary_up
raises_at candidate_client fates app = not fates.candidate_up
raises_at store fates app = not fates.store_up

abbrev pub place : Part → ℕ
place tape = 0
place primary_client = 1
place candidate_client = 2
place store = 3

-- The block ends. Where no part raises, it ends without an exception, and else by that of the first part
-- that does.
abbrev pub Ends : Fates → SweeperTask → App → Type 0
Ends fates sweeper app =
    (app' : App) × IsClosed fates app app'
    × (((close fates sweeper app ≡ closed (stop_sweeper sweeper) app')
          × ((p : Part) → raises_at p fates app ≡ false))
        ⊎ ((part : Part) × (close fates sweeper app ≡ fails part (stop_sweeper sweeper) app')
            × (raises_at part fates app ≡ true)
            × ((p : Part) → place p < place part → raises_at p fates app ≡ false)))

abbrev final : Fates → App → App
final fates app =
    with_world (close_tape fates app.world).0
      (with_dispatcher (record app.dispatcher { running = false; tasks = [] }) app)

final-IsClosed :
    (fates : Fates) (app : App)
    → app.dispatcher.queue.items ≡ []
    → IsClosed fates app (final fates app)
final-IsClosed fates app empty = record {
  rows = ground arith;
  raw = ground arith;
  counters = ground arith;
  jobs = empty;
  workers = refl;
  down = refl;
  written = λ t has. (
    (aclose fates.writer fates.insert t).0,
    ground (arith, has),
    aclose-IsFinal fates.writer fates.insert t,
  );
}

close_tape-raises :
    (fates : Fates) (app : App) → (close_tape fates app.world).1 ≡ raises_at tape fates app
close_tape-raises fates app = elim (Option-cases app.world.tape) [
  | inl without ↦ ground (arith, without)
  | inr (t, has) ↦ ground (arith, has, aclose-dies fates.writer fates.insert t)
]

close-stopped :
    (fates : Fates) (sweeper : SweeperTask) (app : App)
    → stop true app.dispatcher ≡ stopped (record app.dispatcher { running = false; tasks = [] })
    → close fates sweeper app ≡ (elim (first_failure (close_tape fates app.world).1 fates) [
      | none ↦ closed (stop_sweeper sweeper) (final fates app)
      | some part ↦ fails part (stop_sweeper sweeper) (final fates app)
    ])
unfolding close close_parts
close-stopped fates sweeper app e = rw (e, close) refl

place_below :
    (f : Part → Bool) (n : ℕ)
    → (0 < n → f tape ≡ false)
    → (1 < n → f primary_client ≡ false)
    → (2 < n → f candidate_client ≡ false)
    → (3 < n → f store ≡ false)
    → (p : Part) → place p < n
    → f p ≡ false
place_below f n a b c d tape h = a h
place_below f n a b c d primary_client h = b h
place_below f n a b c d candidate_client h = c h
place_below f n a b c d store h = d h

place-bound : (p : Part) → place p < 4
place-bound tape = omega arith
place-bound primary_client = omega arith
place-bound candidate_client = omega arith
place-bound store = omega arith

first_failure-cases :
    (fates : Fates) (app : App)
    → let first = first_failure (close_tape fates app.world).1 fates in
      ((first ≡ none) × ((p : Part) → raises_at p fates app ≡ false))
      ⊎ ((part : Part) × (first ≡ some part)
          × (raises_at part fates app ≡ true)
          × ((p : Part) → place p < place part → raises_at p fates app ≡ false))
unfolding first_failure
first_failure-cases fates app =
    let same = close_tape-raises fates app in
    let below = place_below (λ p. raises_at p fates app) in
    elim (Bool-cases (raises_at tape fates app)) [
      | inl a ↦ inr (
        tape,
        ground arith,
        a,
        below 0 (λ h. absurd (omega arith)) (λ h. absurd (omega arith)) (λ h. absurd (omega arith))
            (λ h. absurd (omega arith)),
      )
      | inr a ↦ elim (Bool-cases fates.primary_up) [
        | inr b ↦ inr (
          primary_client,
          ground arith,
          ground arith,
          below 1 (λ h. a) (λ h. absurd (omega arith)) (λ h. absurd (omega arith))
              (λ h. absurd (omega arith)),
        )
        | inl b ↦ elim (Bool-cases fates.candidate_up) [
          | inr c ↦ inr (
            candidate_client,
            ground arith,
            ground arith,
            below 2 (λ h. a) (λ h. ground arith) (λ h. absurd (omega arith))
                (λ h. absurd (omega arith)),
          )
          | inl c ↦ elim (Bool-cases fates.store_up) [
            | inr d ↦ inr (
              store,
              ground arith,
              ground arith,
              below 3 (λ h. a) (λ h. ground arith) (λ h. ground arith) (λ h. absurd (omega arith)),
            )
            | inl d ↦ inl (
              ground arith,
              λ p.
                  below 4 (λ h. a) (λ h. ground arith) (λ h. ground arith) (λ h. ground arith) p
                    (place-bound p),
            )
          ]
        ]
      ]
    ]

pub stopped-Ends :
    (fates : Fates) (sweeper : SweeperTask) (app : App)
    → stop true app.dispatcher ≡ stopped (record app.dispatcher { running = false; tasks = [] })
    → app.dispatcher.queue.items ≡ []
    → Ends fates sweeper app
stopped-Ends fates sweeper app over empty =
    let end = close-stopped fates sweeper app over in
    (
      final fates app,
      final-IsClosed fates app empty,
      elim (first_failure-cases fates app) [
        | inl (first, quiet) ↦ inl (end ∙ rw first refl, quiet)
        | inr (part, first, bad, before) ↦ inr (part, end ∙ rw first refl, bad, before)
      ],
    )
