-- ===== src/Grippers/Wait.antt =====
-- Waiting for exchanges: include/Robotiq/gripper/wait.hpp, src/wait.cpp, the waits of src/gripper.cpp
-- and `GripperState::waitForExchange`. A thread that waits is a `World`: the clock moves only while
-- it waits. A deadline is in nanoseconds, a timeout in milliseconds, not negative.
pub mod Counting
pub mod Counts
pub mod Outcome
pub mod Polling
use tactile_sensors.Base.{
  ℕ, length, Bool, List, Option, false, if◌then◌else◌, ltb, min, none, not, some, suc, true, zero,
  ◌%◌, ◌*◌, ◌+◌, ◌-◌, ◌/◌, ◌==◌, ◌^◌,
}
use tactile_sensors.Grippers.Image.{
  Call, calls, StampedExchange, World, Blocked, waiting, returned, count_of, set_command, sync,
}
use tactile_sensors.Grippers.Blocks.{
  GripperCommand, ObjectDetection, moving, same_command, object_detection, detection_code, position,
}

abbrev pub nanoseconds : ℕ
nanoseconds = 1_000_000

-- Half of the clock's range, in whole milliseconds.
abbrev pub longest : ℕ
longest = (2 ^ 63 - 1) / nanoseconds / 2

unfoldable pub deadline_after : ℕ → ℕ → ℕ
deadline_after now timeout = now + min timeout longest * nanoseconds

-- Rounded up; 0 once the deadline is over.
unfoldable pub remaining : ℕ → ℕ → ℕ
remaining deadline now = (deadline - now + (nanoseconds - 1)) / nanoseconds

-- `GripperState::waitForExchange`.
unfoldable pub wait_for_record : World → ℕ → ℕ → Blocked StampedExchange
unfolding sync
wait_for_record w desired deadline =
    if desired == 0 then returned w.image.stamped w else sync w (desired - 1) deadline

-- An exchange with a lower count than desired is none.
unfoldable pub up_to : ℕ → Blocked StampedExchange → Blocked (Option StampedExchange)
up_to desired (waiting v) = waiting v
up_to desired (returned fresh v) =
    returned (if ltb (count_of fresh) desired then none else some fresh) v

-- `Gripper::waitForExchangeCount` and `Gripper::waitForExchange`.
unfoldable pub wait_for_exchange_count : World → ℕ → ℕ → Blocked (Option StampedExchange)
unfolding up_to wait_for_record
wait_for_exchange_count w desired timeout =
    up_to desired (wait_for_record w desired (deadline_after w.now timeout))

unfoldable pub wait_for_exchange : World → ℕ → Blocked (Option StampedExchange)
unfolding wait_for_exchange_count
wait_for_exchange w timeout =
    wait_for_exchange_count w ((count_of w.image.stamped + 1) % 2 ^ 64) timeout

-- The loop of `waitForExchangeAfter`, on fuel; `none` if the fuel runs out.
unfoldable pub wait_from :
    (StampedExchange → Bool) → ℕ → ℕ → ℕ → World → Option (Blocked (Option StampedExchange))
wait_from predicate deadline zero desired w = none
wait_from predicate deadline (suc fuel) desired w =
    elim (wait_for_exchange_count w desired (remaining deadline w.now)) [
      | waiting v ↦ some (waiting v)
      | returned none v ↦ some (returned none v)
      | returned (some e) v ↦ elim (predicate e) [
        | true ↦ some (returned (some e) v)
        | false ↦ wait_from predicate deadline fuel ((count_of e + 1) % 2 ^ 64) v
      ]
    ]

-- One round for each wake-up, one before them and one after.
unfoldable pub wait_for_exchange_after :
    World → ℕ → (StampedExchange → Bool) → ℕ → Option (Blocked (Option StampedExchange))
unfolding wait_from
wait_for_exchange_after w after_count predicate timeout =
    wait_from predicate (deadline_after w.now timeout) (length w.wakes + 2)
      ((after_count + 1) % 2 ^ 64) w

unfoldable pub wait_for :
    World → (StampedExchange → Bool) → ℕ → Option (Blocked (Option StampedExchange))
unfolding wait_for_exchange_after
wait_for w predicate timeout =
    wait_for_exchange_after w (count_of w.image.stamped) predicate timeout

-- `between` is what other threads call after the count is read and before the command is set.
unfoldable pub set_command_and_wait_for_exchange :
    World → List Call → GripperCommand → ℕ → Option (Blocked (Option StampedExchange))
unfolding wait_for_exchange_after set_command same_command calls
set_command_and_wait_for_exchange w between c timeout =
    wait_for_exchange_after (record w { image = set_command (calls w.image between) c })
      (count_of w.image.stamped) (λ e. same_command e.command c) timeout

unfoldable pub wait_for_position_echo : World → ℕ → ℕ → Option (Blocked (Option StampedExchange))
unfolding wait_for
wait_for_position_echo w position timeout =
    wait_for w (λ e. e.status.position_request_echo == position) timeout

-- The test for one state of the object detection.
unfoldable pub detects : ObjectDetection → StampedExchange → Bool
detects detection e =
    detection_code (object_detection e.status.gripper_status) == detection_code detection

unfoldable pub wait_for_object_detection :
    World → ObjectDetection → ℕ → Option (Blocked (Option StampedExchange))
unfolding wait_for detects
wait_for_object_detection w detection timeout = wait_for w (detects detection) timeout

unfoldable pub wait_for_motion_end : World → ℕ → Option (Blocked (Option StampedExchange))
unfolding wait_for detects
wait_for_motion_end w timeout = wait_for w (λ e. not (detects moving e)) timeout
