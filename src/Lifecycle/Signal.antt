-- ===== src/Lifecycle/Signal.antt =====
-- WaitForSignal and ArmSecondSignal of lifecycle/signal.go.
use packages_go.Prelude.{Bool, true, false, List, [], ◌∷◌, Option, none, some}

-- The values that the channel delivers from here on, and whether it is closed after them.
pub record Channel (A : Type 0) : Type 0 where
  pub values : List A
  pub closed : Bool

module _ {A : Type 0} where
  -- The calls of forceExit that the goroutine makes; armed: whether forceExit is non-nil.
  unfoldable pub arm_second_signal : Bool → Channel A → List A
  arm_second_signal false c = []
  arm_second_signal true c = elim c.values [ [] ↦ [] | second ∷ rest ↦ second ∷ [] ]

  -- The signal returned, `none` for the nil that a closed channel gives, with the calls of forceExit;
  -- or nothing at all while the channel stays empty.
  unfoldable pub wait_for_signal : Bool → Channel A → Option (Option A × List A)
  wait_for_signal armed c = elim c.values [
    | [] ↦ elim c.closed [ true ↦ some (none, arm_second_signal armed c) | false ↦ none ]
    | received ∷ rest ↦
        some (some received, arm_second_signal armed (record { values = rest; closed = c.closed }))
  ]
