-- ===== src/Lifecycle/Drain.antt =====
-- Drain of lifecycle/drain.go. The targets are 0, 1, …, n - 1, each with a goroutine; an event is one
-- step of one of them, and a run is any interleaving of events.
pub mod Moves
pub mod Reported
use packages_go.Prelude.{
  ℕ, zero, suc, ◌+◌, ◌-◌, ◌<◌, Bool, true, false, not, ◌&&◌, ◌==◌, ltb, List, [], ◌∷◌, ◌++◌, Option,
  none, some, Bytes, if◌then◌else◌,
}

-- Where a target's goroutine stands: in Shutdown, after it returned with an error or nil, after the
-- call of report, and after drains.Done.
pub data Phase : Type 0 where
  draining : Phase
  drained : Option Bytes → Phase
  reported : Phase
  finished : Phase

pub data Event : Type 0 where
  -- target.Shutdown returns
  returns : ℕ → Option Bytes → Event
  -- report is called and returns
  reports : ℕ → Event
  -- the deferred drains.Done
  ends : ℕ → Event

pub record State : Type 0 where
  pub phases : ℕ → Phase
  -- the counter of the WaitGroup
  pub waiting : ℕ
  -- the calls of report, oldest first
  pub calls : List (ℕ × Option Bytes)

abbrev pub set : (ℕ → Phase) → ℕ → Phase → ℕ → Phase
set f i p j = if j == i then p else f j

-- drains.Add(len(targets)), and the goroutines started.
abbrev pub start : ℕ → State
start n = record { phases = λ i. draining; waiting = n; calls = [] }

-- One event, and then the others.
abbrev pub and_then : Option State → (State → Option State) → Option State
and_then none next = none
and_then (some s) next = next s

-- has_report: whether report is non-nil.
module _ (n : ℕ) (has_report : Bool) where
  abbrev pub return_step : Phase → ℕ → Option Bytes → State → Option State
  return_step draining i e s = some (record s { phases = set s.phases i (drained e) })
  return_step _ i e s = none

  abbrev pub report_step : Bool → Phase → ℕ → State → Option State
  report_step true (drained e) i s =
      some (record s { phases = set s.phases i reported; calls = s.calls ++ (i, e) ∷ [] })
  report_step _ _ i s = none

  abbrev end_now : ℕ → State → Option State
  end_now i s = some (record s { phases = set s.phases i finished; waiting = s.waiting - 1 })

  abbrev pub end_step : Bool → Phase → ℕ → State → Option State
  end_step true reported i s = end_now i s
  end_step false (drained e) i s = end_now i s
  end_step _ _ i s = none

  -- An event of a target that is not there, or that its goroutine cannot take, is `none`.
  unfoldable pub step : Event → State → Option State
  step (returns i e) s = if ltb i n then return_step (s.phases i) i e s else none
  step (reports i) s = if ltb i n then report_step has_report (s.phases i) i s else none
  step (ends i) s = if ltb i n then end_step has_report (s.phases i) i s else none

  unfoldable pub run : List Event → State → Option State
  run [] s = some s
  run (e ∷ es) s = and_then (step e s) λ s'. run es s'

-- drains.Wait returns once the counter is zero.
abbrev pub is_drained : State → Bool
is_drained s = s.waiting == 0
