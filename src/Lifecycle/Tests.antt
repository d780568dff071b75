-- ===== src/Lifecycle/Tests.antt =====
-- Runs of Drain.
use packages_go.Prelude.{
  ℕ, ◌≡◌, refl, true, false, List, [], ◌∷◌, none, some, codes, if◌then◌else◌, arith,
}
use packages_go.Lifecycle.Drain.{Event, returns, reports, ends, finished, State, start, step, run}
use packages_go.Lifecycle.Signal.{Channel, arm_second_signal, wait_for_signal}
use packages_go.Lifecycle.Drain.Moves.{calls_of}
use packages_go.Lifecycle.Drain.Reported.{run-reported}

-- The second target returns first, and the first one fails.
abbrev events : List Event
events =
    returns 1 none
    ∷ returns 0 (some (codes "timeout"))
    ∷ reports 0
    ∷ reports 1
    ∷ ends 1
    ∷ ends 0
    ∷ []

abbrev after : State
after = elim (run 2 true events (start 2)) [ none ↦ start 0 | some s ↦ s ]

drained_both : run 2 true events (start 2) ≡ some after
unfolding run step
drained_both = refl

no_one_left : after.waiting ≡ 0
unfolding run step
no_one_left = refl

run-reported_example :
    (after.phases 1 ≡ finished) × (calls_of 1 after.calls ≡ (if true then 1 else 0))
run-reported_example = run-reported 2 true events after drained_both no_one_left 1 (omega arith)

-- The first signal is returned, and the second one forces the exit.
abbrev signals : Channel ℕ
signals = record { values = 15 ∷ 2 ∷ 9 ∷ []; closed = false }

second_forces : wait_for_signal true signals ≡ some (some 15, 2 ∷ [])
unfolding wait_for_signal arm_second_signal
second_forces = refl
