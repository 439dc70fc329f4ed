-- ===== src/Grippers/Activation.antt =====
-- The blocking procedures of src/gripper.cpp: `activate`, `recoverFromFault` and the handshake that
-- both run, over the waits of include/Robotiq/gripper/wait.hpp.
pub mod Sole
pub mod Commands
pub mod Returns
pub mod Ends
pub mod Complete
pub mod NextExchange
pub mod Answers
pub mod Exchanges
pub mod WithDevice
pub mod OnFake
pub mod Overflow
use tactile_sensors.Base.{
  ℕ, Bool, Option, false, if◌then◌else◌, leb, ltb, none, not, some, true, ◌*◌, ◌+◌, ◌/◌, ◌==◌, ◌%◌,
  ◌^◌,
}
use tactile_sensors.Grippers.Blocks.{
  GripperCommand, GripperStatus, activate, go_to, activated, activation_state, complete,
  in_progress, set_to, state_code,
}
use tactile_sensors.Grippers.Blocks.Faults.{FaultSeverity, severity, gripper_fault, major}
use tactile_sensors.Grippers.Image.{StampedExchange, World, Blocked, waiting, returned, set_command}
use tactile_sensors.Grippers.Wait.{nanoseconds, remaining, wait_for}

pub data ActivationResult : Type 0 where
  finished already_active fault_latched timed_out : ActivationResult

-- A procedure goes on from where a wait returned.
unfoldable pub after :
    {A B : Type 0} → Option (Blocked A) → (A → World → Option (Blocked B)) → Option (Blocked B)
after none next = none
after (some (waiting v)) next = some (waiting v)
after (some (returned a v)) next = next a v

unfoldable pub with_command : World → GripperCommand → World
unfolding set_command
with_command w c = record w { image = set_command w.image c }

unfoldable pub wait_for_status :
    World → (GripperStatus → Bool) → ℕ → Option (Blocked (Option StampedExchange))
unfolding wait_for
wait_for_status w predicate deadline =
    wait_for w (λ e. predicate e.status) (remaining deadline w.now)

unfoldable pub wait_operational : World → ℕ → Option (Blocked (Option StampedExchange))
unfolding wait_for_status
wait_operational w deadline = wait_for_status w (λ s. true) deadline

abbrev pub is_complete : GripperStatus → Bool
is_complete s = state_code (activation_state s.gripper_status) == state_code complete

abbrev pub is_in_progress : GripperStatus → Bool
is_in_progress s = state_code (activation_state s.gripper_status) == state_code in_progress

unfoldable pub is_major : FaultSeverity → Bool
is_major major = true
is_major _ = false

-- What the last wait of a procedure says.
unfoldable pub completion : Option StampedExchange → ActivationResult
completion none = timed_out
completion (some e) = finished

unfoldable pub wait_for_activation_complete : World → ℕ → Option (Blocked ActivationResult)
unfolding after wait_for_status completion
wait_for_activation_complete w deadline =
    after (wait_for_status w is_complete deadline) (λ r v. some (returned (completion r) v))

-- `now() + timeout`, in the clock's signed 64-bit nanoseconds and without a cap. A sum beyond that
-- range is taken to wrap around; 0 stands for a negative deadline, one that is long over.
unfoldable pub uncapped_deadline : ℕ → ℕ → ℕ
uncapped_deadline now timeout =
    let sum = (now + timeout * nanoseconds) % 2 ^ 64 in if ltb sum (2 ^ 63) then sum else 0

-- `deadline - now >= timeout / 2`, where the difference may be negative.
unfoldable pub is_activation_handshake_allowed : ℕ → ℕ → ℕ → Bool
is_activation_handshake_allowed deadline timeout now =
    leb (now + timeout / 2 * nanoseconds) deadline

-- The commands of the handshake: rACT set and rGTO clear, and then rACT clear as well.
unfoldable pub activate_command : GripperCommand → GripperCommand
activate_command c = record c { action = set_to (set_to c.action go_to false) activate true }

unfoldable pub deactivate_command : GripperCommand → GripperCommand
unfolding activate_command
deactivate_command c = record (activate_command c) {
  action = set_to (activate_command c).action activate false;
}

-- The second half of the handshake, after the wait for the falling edge.
unfoldable pub rising_edge :
    GripperCommand → ℕ → Option StampedExchange → World → Option (Blocked ActivationResult)
unfolding with_command wait_for_activation_complete activate_command
rising_edge previous deadline none v = some (returned timed_out (with_command v previous))
rising_edge previous deadline (some e) v =
    wait_for_activation_complete (with_command v (activate_command previous)) deadline

unfoldable pub run_activation_handshake : World → ℕ → Option (Blocked ActivationResult)
unfolding after with_command wait_for_status deactivate_command rising_edge
run_activation_handshake w deadline =
    after
      (wait_for_status (with_command w (deactivate_command w.image.command))
        (λ s. not (activated s.gripper_status)) deadline)
      (rising_edge w.image.command deadline)

-- The rest of `activate`, on the exchange that shows the link to be alive.
unfoldable pub judge : ℕ → ℕ → Option StampedExchange → World → Option (Blocked ActivationResult)
unfolding is_major wait_for_activation_complete is_activation_handshake_allowed
    run_activation_handshake
judge deadline timeout none v = some (returned timed_out v)
judge deadline timeout (some e) v =
    if is_major (severity (gripper_fault e.status.fault_status))
    then some (returned fault_latched v)
    else if is_complete e.status
    then some (returned already_active v)
    else if is_in_progress e.status
    then wait_for_activation_complete v deadline
    else if not (is_activation_handshake_allowed deadline timeout v.now)
    then some (returned timed_out v)
    else run_activation_handshake v deadline

unfoldable pub activate_gripper : World → ℕ → Option (Blocked ActivationResult)
unfolding after wait_operational judge
activate_gripper w timeout =
    let deadline = uncapped_deadline w.now timeout in
    after (wait_operational w deadline) (judge deadline timeout)

-- The rest of `recoverFromFault`.
unfoldable pub recover : ℕ → ℕ → Option StampedExchange → World → Option (Blocked ActivationResult)
unfolding is_activation_handshake_allowed run_activation_handshake
recover deadline timeout none v = some (returned timed_out v)
recover deadline timeout (some e) v =
    if not (is_activation_handshake_allowed deadline timeout v.now)
    then some (returned timed_out v)
    else run_activation_handshake v deadline

unfoldable pub recover_from_fault : World → ℕ → Option (Blocked ActivationResult)
unfolding after wait_operational recover
recover_from_fault w timeout =
    let deadline = uncapped_deadline w.now timeout in
    after (wait_operational w deadline) (recover deadline timeout)
