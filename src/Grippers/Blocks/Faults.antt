-- ===== src/Grippers/Blocks/Faults.antt =====
-- The FAULT STATUS byte and the severity of its codes: include/Robotiq/gripper/fault_status.hpp,
-- with the writer of src/fake/status_writer.cpp. A code that no enumerator names is `unlisted`.
use tactile_sensors.Base.{
  ℕ, &&-eq_true, ==→eq, Bool, arith, bit_and, if◌then◌else◌, refl, true, ◌%◌, ◌&&◌, ◌/◌, ◌<◌, ◌==◌,
  ◌^◌, ◌||◌, ◌≡◌, ◌≢◌,
}
use tactile_sensors.Grippers.Blocks.Writers.{with_field}
use tactile_sensors.Grippers.Blocks.{GripperStatus}
use tactile_sensors.Base.Bits.{every_below, every_below_sound}

pub data GripperFault : Type 0 where
  no_fault brake_problem blocked_at_start action_delayed activation_required : GripperFault
  over_temperature no_communication under_voltage automatic_release_in_progress : GripperFault
  internal_fault activation_fault overcurrent automatic_release_complete : GripperFault
  unlisted : ℕ → GripperFault

unfoldable pub fault_code : GripperFault → ℕ
fault_code no_fault = 0x00
fault_code brake_problem = 0x03
fault_code blocked_at_start = 0x04
fault_code action_delayed = 0x05
fault_code activation_required = 0x07
fault_code over_temperature = 0x08
fault_code no_communication = 0x09
fault_code under_voltage = 0x0A
fault_code automatic_release_in_progress = 0x0B
fault_code internal_fault = 0x0C
fault_code activation_fault = 0x0D
fault_code overcurrent = 0x0E
fault_code automatic_release_complete = 0x0F
fault_code (unlisted code) = code

-- The cast from a code.
unfoldable pub fault_of : ℕ → GripperFault
fault_of code =
    if code == 0x00
    then no_fault
    else if code == 0x03
    then brake_problem
    else if code == 0x04
    then blocked_at_start
    else if code == 0x05
    then action_delayed
    else if code == 0x07
    then activation_required
    else if code == 0x08
    then over_temperature
    else if code == 0x09
    then no_communication
    else if code == 0x0A
    then under_voltage
    else if code == 0x0B
    then automatic_release_in_progress
    else if code == 0x0C
    then internal_fault
    else if code == 0x0D
    then activation_fault
    else if code == 0x0E
    then overcurrent
    else if code == 0x0F
    then automatic_release_complete
    else unlisted code

pub data FaultSeverity : Type 0 where
  none_severity warning minor major : FaultSeverity

unfoldable pub severity : GripperFault → FaultSeverity
severity no_fault = none_severity
severity blocked_at_start = warning
severity action_delayed = warning
severity activation_required = warning
severity over_temperature = minor
severity no_communication = minor
severity brake_problem = major
severity under_voltage = major
severity automatic_release_in_progress = major
severity internal_fault = major
severity activation_fault = major
severity overcurrent = major
severity automatic_release_complete = major
severity (unlisted code) = major

unfoldable pub gripper_fault : ℕ → GripperFault
unfolding fault_of
gripper_fault bits = fault_of (bit_and bits 0x0F)

-- kFLT by its code.
unfoldable pub controller_fault : ℕ → ℕ
controller_fault bits = bit_and bits 0xF0 / 2 ^ 4

unfoldable pub set_gripper_fault : GripperStatus → GripperFault → GripperStatus
unfolding with_field fault_code
set_gripper_fault s fault = record s {
  fault_status = with_field s.fault_status 0x0F (fault_code fault % 256);
}

abbrev pub severity_code : FaultSeverity → ℕ
severity_code none_severity = 0
severity_code warning = 1
severity_code minor = 2
severity_code major = 3

-- The codes below the Major tier, with their tiers.
abbrev pub tier : ℕ → FaultSeverity
tier code =
    if code == 0
    then none_severity
    else if code == 4 || code == 5 || code == 7
    then warning
    else if code == 8 || code == 9
    then minor
    else major

pub severity_code-injective : (a b : FaultSeverity) → severity_code a ≡ severity_code b → a ≡ b
severity_code-injective a b h = ground arith

abbrev tiers_right : ℕ → Bool
tiers_right bits = severity_code (severity (gripper_fault bits)) == severity_code (tier (bits % 16))

tiers_table : every_below 256 tiers_right ≡ true
unfolding every_below gripper_fault severity
tiers_table = refl

-- The severity read from a FAULT STATUS byte depends on its low nibble alone: code 0 is no fault,
-- 4, 5 and 7 are warnings, 8 and 9 are minor, and every other code, listed or not, is major.
pub severity-gripper_fault :
    (bits : ℕ) → bits < 256 → severity (gripper_fault bits) ≡ tier (bits % 16)
severity-gripper_fault bits h =
    severity_code-injective _ _ (==→eq _ _ (every_below_sound 256 tiers_right bits tiers_table h))

abbrev fault_written : GripperFault → ℕ → Bool
fault_written f v =
    let v' = with_field v 0x0F (fault_code f % 256) in
    (fault_code (gripper_fault v') == fault_code f) && (controller_fault v' == controller_fault v)

fault_table :
    (f : GripperFault) → ((n : ℕ) → f ≢ unlisted n) → every_below 256 (fault_written f) ≡ true
unfolding every_below with_field gripper_fault controller_fault fault_code
fault_table no_fault h = refl
fault_table (unlisted n) h = absurd (h n refl)
fault_table _ h = refl

-- A listed gripper fault that the writer puts into a FAULT STATUS byte is the code that is read
-- back, and the controller's nibble stays.
pub gripper_fault-set_gripper_fault :
    (s : GripperStatus) (f : GripperFault)
    → s.fault_status < 256
    → ((n : ℕ) → f ≢ unlisted n)
    → (fault_code (gripper_fault (set_gripper_fault s f).fault_status) ≡ fault_code f)
      × (controller_fault (set_gripper_fault s f).fault_status ≡ controller_fault s.fault_status)
unfolding set_gripper_fault
gripper_fault-set_gripper_fault s f h listed =
    let parts =
      &&-eq_true _ _
        (every_below_sound 256 (fault_written f) s.fault_status (fault_table f listed) h) in
    (==→eq _ _ parts.0, ==→eq _ _ parts.1)
