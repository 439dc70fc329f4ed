-- ===== src/Grippers/Moves/Activated.antt =====
-- How the activation of examples/gripper_events.cpp ends.
use tactile_sensors.Base.{Bool, List, [], false, if◌then◌else◌, true, ◌∷◌, ◌≡◌, ◌⊎◌}
use tactile_sensors.Grippers.Activation.{activate_command}
use tactile_sensors.Grippers.Activation.Complete.{IsComplete}
use tactile_sensors.Grippers.Activation.Sole.{IsSole}
use tactile_sensors.Grippers.Blocks.{GripperCommand}
use tactile_sensors.Grippers.Image.{World}
use tactile_sensors.Grippers.Log.{Level, error, info, warn}
use tactile_sensors.Grippers.Activation.Ends.{Ends}
use tactile_sensors.Grippers.Wait.Counts.{IsSteady}

-- The log of a result, after a warning if the fault had to be recovered from.
pub Tells : Bool → List Level → Type 0
Tells ok log =
    (log ≡ (if ok then info else error) ∷ []) ⊎ (log ≡ warn ∷ (if ok then info else error) ∷ [])

-- A result of success rests on the newest status.
pub Proves : Bool → World → Type 0
Proves true v = IsComplete v
Proves false v = Unit

pub Activated : GripperCommand → Bool × List Level → World → Type 0
unfolding Tells Proves activate_command
Activated before (ok, log) v =
    ((v.image.command ≡ before) ⊎ (v.image.command ≡ activate_command before))
    × Tells ok log
    × Proves ok v
    × IsSteady v
    × IsSole v.wakes

abbrev Front : List Level → Type 0
Front log = (log ≡ []) ⊎ (log ≡ warn ∷ [])
