-- ===== src/Grippers/Blocks/Controller.antt =====
-- The fault of the optional controller: `ControllerFault` and its severity in
-- include/Robotiq/gripper/fault_status.hpp.
use tactile_sensors.Base.{ℕ, ==→eq, Bool, if◌then◌else◌, refl, true, ◌%◌, ◌/◌, ◌<◌, ◌==◌, ◌||◌, ◌≡◌}
use tactile_sensors.Base.Bits.{every_below, every_below_sound}
use tactile_sensors.Grippers.Blocks.Faults.{
  FaultSeverity, none_severity, warning, minor, major, controller_fault, gripper_fault, severity,
  severity_code, severity_code-injective, tier, severity-gripper_fault,
}

pub data ControllerFault : Type 0 where
  no_controller_fault supply_24v_not_detected no_device_detected : ControllerFault
  communication_not_ready emergency_stop controller_overcurrent : ControllerFault
  unlisted_controller : ℕ → ControllerFault

-- The cast from a code.
unfoldable pub controller_fault_of : ℕ → ControllerFault
controller_fault_of code =
    if code == 0x00
    then no_controller_fault
    else if code == 0x04
    then supply_24v_not_detected
    else if code == 0x05
    then no_device_detected
    else if code == 0x09
    then communication_not_ready
    else if code == 0x0C
    then emergency_stop
    else if code == 0x0E
    then controller_overcurrent
    else unlisted_controller code

unfoldable pub controller_severity : ControllerFault → FaultSeverity
controller_severity no_controller_fault = none_severity
controller_severity supply_24v_not_detected = warning
controller_severity no_device_detected = warning
controller_severity communication_not_ready = minor
controller_severity emergency_stop = major
controller_severity controller_overcurrent = major
controller_severity (unlisted_controller code) = major

-- The tiers of the manual, by code.
abbrev pub controller_tier : ℕ → FaultSeverity
controller_tier code =
    if code == 0
    then none_severity
    else if code == 4 || code == 5
    then warning
    else if code == 9
    then minor
    else major

-- The tables agree on every byte.
abbrev controller_tiers_right : ℕ → Bool
controller_tiers_right bits =
    severity_code (controller_severity (controller_fault_of (controller_fault bits)))
    == severity_code (controller_tier (bits / 16))

controller_tiers_table : every_below 256 controller_tiers_right ≡ true
unfolding every_below controller_fault_of controller_severity controller_fault
controller_tiers_table = refl

-- A byte's two severities depend on one nibble each: the gripper's on the low one, where code 0 is no
-- fault, 4, 5 and 7 are warnings, 8 and 9 are minor, and every other code is major; the controller's
-- on the high one, where 0 is no fault, 4 and 5 are warnings, 9 is minor and every other code is
-- major.
pub severities-fault_status :
    (bits : ℕ)
    → bits < 256
    → (severity (gripper_fault bits) ≡ tier (bits % 16))
      × (controller_severity (controller_fault_of (controller_fault bits))
          ≡ controller_tier (bits / 16))
severities-fault_status bits h = (
  severity-gripper_fault bits h,
  severity_code-injective _ _
      (==→eq _ _ (every_below_sound 256 controller_tiers_right bits controller_tiers_table h)),
)
