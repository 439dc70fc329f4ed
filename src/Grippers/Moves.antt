-- ===== src/Grippers/Moves.antt =====
-- examples/gripper_events.cpp: activating with recovery from a latched fault, and a move that waits for
-- its outcome. The arithmetic of `double` is a record, as for the units. Timeouts are in milliseconds;
-- the log is the levels of its lines.
mod Tests
pub mod Outcomes
pub mod Activated
use tactile_sensors.Base.{
  Bool, List, Option, [], false, if◌then◌else◌, none, some, true, ◌++◌, ◌∷◌, ℕ,
}
use tactile_sensors.Grippers.Activation.{
  ActivationResult, activate_gripper, after, already_active, fault_latched, finished,
  recover_from_fault, timed_out,
}
use tactile_sensors.Grippers.Blocks.{GripperCommand, go_to, moving, set_to}
use tactile_sensors.Grippers.Image.{Call, Blocked, StampedExchange, World, returned}
use tactile_sensors.Grippers.Log.{Level, debug, error, info, warn}
use tactile_sensors.Grippers.Units.{
  Double, DeviceProfile, opening_from_register, opening_to_register, speed_to_register,
}
use tactile_sensors.Grippers.Wait.{
  set_command_and_wait_for_exchange, wait_for_motion_end, wait_for_object_detection,
}

-- The default timeout of `activate` and `recoverFromFault`.
abbrev pub activation_timeout : ℕ
activation_timeout = 15000

abbrev pub is_active : ActivationResult → Bool
is_active finished = true
is_active already_active = true
is_active fault_latched = false
is_active timed_out = false

-- The final check, after the lines that are logged already.
unfoldable pub check_activation :
    List Level → ActivationResult → World → Option (Blocked (Bool × List Level))
check_activation log r v =
    some (returned (is_active r, log ++ (if is_active r then info else error) ∷ []) v)

unfoldable pub or_recover : ActivationResult → World → Option (Blocked (Bool × List Level))
unfolding after check_activation
or_recover fault_latched v =
    after (recover_from_fault v activation_timeout) (check_activation (warn ∷ []))
or_recover finished v = check_activation [] finished v
or_recover already_active v = check_activation [] already_active v
or_recover timed_out v = check_activation [] timed_out v

unfoldable pub activate_or_recover : World → Option (Blocked (Bool × List Level))
unfolding after or_recover
activate_or_recover w = after (activate_gripper w activation_timeout) or_recover

-- What a move ends with: its result, the command that it leaves to its caller, and its log.
pub record Move : Type 0 where
  pub ok : Bool
  pub command : GripperCommand
  pub log : List Level

abbrev pub commanded : GripperCommand → ℕ → GripperCommand
commanded c position = record c { position_request = position; action = set_to c.action go_to true }

abbrev pub ended : Bool → GripperCommand → List Level → World → Option (Blocked Move)
ended ok c log v = some (returned (record { ok = ok; command = c; log = log }) v)

module _ (d : Double) where
  -- The opening at which the fingers have stopped.
  unfoldable pub reached : GripperCommand → List Level → Option d.W → World → Option (Blocked Move)
  reached c log none v = ended false c (log ++ error ∷ []) v
  reached c log (some opening) v = ended true c (log ++ info ∷ []) v

  unfoldable pub settled :
      DeviceProfile d
      → GripperCommand
      → List Level
      → Option StampedExchange
      → World
      → Option (Blocked Move)
  unfolding reached
  settled profile c log none v = ended false c (log ++ error ∷ []) v
  settled profile c log (some e) v =
      reached c log (opening_from_register d e.status.position profile) v

  -- After the wait for the motion to start, which is only advisory.
  unfoldable pub started :
      DeviceProfile d → GripperCommand → Option StampedExchange → World → Option (Blocked Move)
  unfolding after settled
  started profile c none v =
      after (wait_for_motion_end v 5000) (settled profile c (debug ∷ debug ∷ []))
  started profile c (some e) v = after (wait_for_motion_end v 5000) (settled profile c (debug ∷ []))

  unfoldable pub carried :
      DeviceProfile d → GripperCommand → Option StampedExchange → World → Option (Blocked Move)
  unfolding after started
  carried profile c none v = ended false c (debug ∷ error ∷ []) v
  carried profile c (some e) v = after (wait_for_object_detection v moving 200) (started profile c)

  unfoldable pub send : DeviceProfile d → GripperCommand → List Call → World → Option (Blocked Move)
  unfolding after carried
  send profile c between w =
      after (set_command_and_wait_for_exchange w between c 1000) (carried profile c)

  unfoldable pub send_to :
      DeviceProfile d → Option ℕ → GripperCommand → List Call → World → Option (Blocked Move)
  unfolding send
  send_to profile none c between w = ended false c (error ∷ []) w
  send_to profile (some position) c between w = send profile (commanded c position) between w

  -- `between` is what other threads call while the command is sent.
  unfoldable pub move_to :
      DeviceProfile d → d.W → GripperCommand → List Call → World → Option (Blocked Move)
  unfolding send_to
  move_to profile opening c between w =
      send_to profile (opening_to_register d opening profile) c between w

  -- `setSpeed` of examples/exchange_log.cpp, with the profile that it names.
  unfoldable pub set_speed :
      DeviceProfile d → d.W → GripperCommand → Bool × GripperCommand × List Level
  set_speed profile speed c = elim (speed_to_register d speed profile) [
    | none ↦ (false, c, error ∷ [])
    | some register ↦ (true, record c { speed = register }, [])
  ]
