-- ===== src/Grippers/Moves/Tests.antt =====
-- The theorems about the moves of examples/gripper_events.cpp at concrete inputs.
use tactile_sensors.Base.{List, [], ◌∷◌, ◌≡◌, ℕ, arith, refl, Option, none, some}
use tactile_sensors.Grippers.Log.{Level, debug, info}
use tactile_sensors.Grippers.Activation.Complete.{Shown, procedures-Shown}
use tactile_sensors.Grippers.Activation.{activate_gripper, recover_from_fault}
use tactile_sensors.Grippers.Activation.Ends.{Ends}
use tactile_sensors.Grippers.Blocks.{
  GripperCommand, GripperStatus, object_detection, set_to, empty_command, empty_status,
}
use tactile_sensors.Grippers.Image.{
  Blocked, World, calls, keeps_waiting, waiting, returned, new_image, Call, sets, publishes,
}
use tactile_sensors.Grippers.Moves.{Move, commanded, move_to}
use tactile_sensors.Grippers.Moves.Activated.{Activated}
use tactile_sensors.Grippers.Moves.Outcomes.{MovedTo, move_to-MovedTo}
use tactile_sensors.Grippers.Units.{DeviceProfile, opening_from_register, opening_to_register}
use tactile_sensors.Grippers.Units.Ieee.{tenths}
use tactile_sensors.Grippers.Wait.Counting.{Ticks, published, to_come}
use tactile_sensors.Grippers.Wait.{
  deadline_after, remaining, set_command_and_wait_for_exchange, wait_for_exchange_count,
  wait_for_motion_end, wait_for_object_detection,
}
use tactile_sensors.Grippers.Wait.Counts.{IsSteady, overtaken}

-- The gripper is active; it carries out the command, moves and stops.
abbrev status : ℕ → GripperStatus
status flags = record empty_status { gripper_status = flags; position = 100 }

abbrev moved : GripperCommand
moved = commanded empty_command 3

-- Another thread sets a command first.
abbrev another : List Call
another = sets empty_command ∷ []

abbrev moving_world : World
moving_world = record {
  image = new_image;
  now = 10;
  wakes =
      record { meanwhile = publishes moved (status 0x31) 20 ∷ []; clock = 20 }
      ∷ record { meanwhile = publishes moved (status 0x39) 30 ∷ []; clock = 30 }
      ∷ record { meanwhile = publishes moved (status 0xF9) 40 ∷ []; clock = 40 }
      ∷ [];
}

moving_world-IsSteady : IsSteady moving_world
unfolding Ticks to_come published
moving_world-IsSteady = record {
  ticks = (omega arith, (omega arith, (omega arith, tt)));
  counts = omega arith;
}

overtaken-IsSteady : IsSteady (overtaken moving_world another)
unfolding Ticks to_come published
overtaken-IsSteady = record {
  ticks = (omega arith, (omega arith, (omega arith, (omega arith, tt))));
  counts = omega arith;
}

abbrev profile : DeviceProfile tenths
profile = record {
  min_speed = 1;
  max_speed = 5;
  min_opening = 0;
  max_opening = 100;
  open_position = 3;
  closed_position = 230;
}

move_to-MovedTo_example :
    MovedTo tenths profile
      (opening_to_register tenths 100 profile)
      empty_command
      moving_world
      (move_to tenths profile 100 empty_command another moving_world)
move_to-MovedTo_example =
    move_to-MovedTo tenths profile 100 empty_command another moving_world overtaken-IsSteady

abbrev log_of : Option (Blocked Move) → List Level
log_of none = []
log_of (some (waiting u)) = []
log_of (some (returned m v)) = m.log

moves : log_of (move_to tenths profile 100 empty_command another moving_world) ≡ debug ∷ info ∷ []
unfolding move_to opening_to_register set_command_and_wait_for_exchange wait_for_exchange_count
    keeps_waiting deadline_after remaining calls set_to wait_for_object_detection object_detection
    wait_for_motion_end opening_from_register
moves = refl

procedures-Shown_example :
    Ends Shown (activate_gripper moving_world 40) × Ends Shown (recover_from_fault moving_world 40)
procedures-Shown_example = procedures-Shown moving_world 40 moving_world-IsSteady
