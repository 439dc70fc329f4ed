-- ===== src/Grippers/Printing.antt =====
-- include/Robotiq/gripper/to_string.hpp and src/to_string.cpp: the names of the enumerators, and the
-- texts of the blocks, as lists of ASCII codes.
mod Tests
pub mod Words
pub mod Plain
pub mod Fields
use Prim.Native.Char.{code}
use Prim.Native.String.{String}
use tactile_sensors.Base.{Bool, List, [], get_or, if◌then◌else◌, ltb, ◌%◌, ◌++◌, ◌+◌, ◌/◌, ◌∷◌, ℕ}
use tactile_sensors.Grippers.Activation.{
  ActivationResult, finished, already_active, fault_latched, timed_out,
}
use tactile_sensors.Grippers.Blocks.{
  ActivationState, GripperCommand, GripperStatus, ObjectDetection, activate, activated,
  activation_state, at_requested_position, auto_release, auto_release_open_direction, complete,
  detected_while_closing, detected_while_opening, detection_code, get, go_to, go_to_enabled,
  in_progress, moving, object_detection, reserved, reset, state_code,
}
use tactile_sensors.Grippers.Blocks.Controller.{
  ControllerFault, controller_fault_of, no_controller_fault, supply_24v_not_detected,
  no_device_detected, communication_not_ready, emergency_stop, controller_overcurrent,
  unlisted_controller,
}
use tactile_sensors.Grippers.Blocks.Faults.{
  FaultSeverity, GripperFault, no_fault, brake_problem, blocked_at_start, action_delayed,
  activation_required, over_temperature, no_communication, under_voltage,
  automatic_release_in_progress, internal_fault, activation_fault, overcurrent,
  automatic_release_complete, unlisted, none_severity, warning, minor, major, controller_fault,
  fault_code, gripper_fault,
}
use tactile_sensors.Grippers.Link.{ConnectionState, disconnected, connecting, operational, faulted}

abbrev pub codes : String → List ℕ
codes String.[] = []
codes (String.◌∷◌ c s) = code c ∷ codes s

unfoldable pub connection_name : ConnectionState → List ℕ
connection_name disconnected = codes "Disconnected"
connection_name connecting = codes "Connecting"
connection_name operational = codes "Operational"
connection_name faulted = codes "Faulted"

unfoldable pub result_name : ActivationResult → List ℕ
result_name finished = codes "Activated"
result_name already_active = codes "AlreadyActive"
result_name fault_latched = codes "FaultLatched"
result_name timed_out = codes "Timeout"

unfoldable pub state_name : ActivationState → List ℕ
state_name reset = codes "Reset"
state_name in_progress = codes "InProgress"
state_name reserved = codes "Reserved"
state_name complete = codes "Complete"

unfoldable pub detection_name : ObjectDetection → List ℕ
detection_name moving = codes "Moving"
detection_name detected_while_opening = codes "DetectedWhileOpening"
detection_name detected_while_closing = codes "DetectedWhileClosing"
detection_name at_requested_position = codes "AtRequestedPosition"

unfoldable pub fault_name : GripperFault → List ℕ
fault_name no_fault = codes "None"
fault_name brake_problem = codes "BrakeProblem"
fault_name blocked_at_start = codes "BlockedAtStart"
fault_name action_delayed = codes "ActionDelayed"
fault_name activation_required = codes "ActivationRequired"
fault_name over_temperature = codes "OverTemperature"
fault_name no_communication = codes "NoCommunication"
fault_name under_voltage = codes "UnderVoltage"
fault_name automatic_release_in_progress = codes "AutomaticReleaseInProgress"
fault_name internal_fault = codes "InternalFault"
fault_name activation_fault = codes "ActivationFault"
fault_name overcurrent = codes "Overcurrent"
fault_name automatic_release_complete = codes "AutomaticReleaseComplete"
fault_name (unlisted n) = codes "Unrecognized"

unfoldable pub controller_name : ControllerFault → List ℕ
controller_name no_controller_fault = codes "None"
controller_name supply_24v_not_detected = codes "Supply24VNotDetected"
controller_name no_device_detected = codes "NoDeviceDetected"
controller_name communication_not_ready = codes "CommunicationNotReady"
controller_name emergency_stop = codes "EmergencyStop"
controller_name controller_overcurrent = codes "Overcurrent"
controller_name (unlisted_controller n) = codes "Unrecognized"

unfoldable pub severity_name : FaultSeverity → List ℕ
severity_name none_severity = codes "None"
severity_name warning = codes "Warning"
severity_name minor = codes "Minor"
severity_name major = codes "Major"

-- A field, with a space before it unless it is the first.
unfoldable pub append_field : List ℕ → List ℕ → List ℕ → List ℕ
append_field [] name value = name ++ b'=' ∷ value
append_field (c ∷ out) name value = (c ∷ out) ++ b' ' ∷ (name ++ b'=' ∷ value)

abbrev pub bit_text : Bool → List ℕ
bit_text on = if on then codes "1" else codes "0"

-- `std::to_string` of a byte.
abbrev pub digit : ℕ → ℕ
digit n = b'0' + n % 10

unfoldable pub byte_text : ℕ → List ℕ
byte_text n =
    if ltb n 10
    then digit n ∷ []
    else if ltb n 100
    then digit (n / 10) ∷ digit n ∷ []
    else digit (n / 100) ∷ digit (n / 10) ∷ digit n ∷ []

unfoldable pub hex_digit : ℕ → ℕ
hex_digit n = get_or (codes "0123456789ABCDEF") (n % 16) 0

unfoldable pub enum_text : List ℕ → ℕ → List ℕ
unfolding hex_digit
enum_text name value = name ++ (codes "(0x" ++ hex_digit value ∷ codes ")")

unfoldable pub append_bit : List ℕ → List ℕ → Bool → List ℕ
unfolding append_field
append_bit out name on = append_field out name (bit_text on)

unfoldable pub append_byte : List ℕ → List ℕ → ℕ → List ℕ
unfolding append_field byte_text
append_byte out name value = append_field out name (byte_text value)

unfoldable pub append_enum : List ℕ → List ℕ → List ℕ → ℕ → List ℕ
unfolding append_field enum_text
append_enum out name text value = append_field out name (enum_text text value)

unfoldable pub command_text : GripperCommand → List ℕ
unfolding append_bit append_byte
command_text c =
    let bits =
      append_bit
        (append_bit
          (append_bit (append_bit [] (codes "rACT") (get c.action activate)) (codes "rGTO")
            (get c.action go_to))
          (codes "rATR") (get c.action auto_release))
        (codes "rARD") (get c.action auto_release_open_direction) in
    append_byte
      (append_byte (append_byte bits (codes "rPR") c.position_request) (codes "rSP") c.speed)
      (codes "rFR") c.force

unfoldable pub flags_text : ℕ → List ℕ
unfolding append_bit append_enum state_name detection_name
flags_text flags =
    let bits =
      append_bit (append_bit [] (codes "gACT") (activated flags)) (codes "gGTO")
        (go_to_enabled flags) in
    let state = activation_state flags in
    let detection = object_detection flags in
    append_enum (append_enum bits (codes "gSTA") (state_name state) (state_code state))
      (codes "gOBJ") (detection_name detection) (detection_code detection)

unfoldable pub fault_text : ℕ → List ℕ
unfolding append_enum fault_name controller_name
fault_text bits =
    let fault = gripper_fault bits in
    append_enum (append_enum [] (codes "gFLT") (fault_name fault) (fault_code fault)) (codes "kFLT")
      (controller_name (controller_fault_of (controller_fault bits))) (controller_fault bits)

unfoldable pub status_text : GripperStatus → List ℕ
unfolding flags_text fault_text append_byte
status_text s =
    let out = flags_text s.gripper_status ++ b' ' ∷ fault_text s.fault_status in
    append_byte
      (append_byte (append_byte out (codes "gPR") s.position_request_echo) (codes "gPO") s.position)
      (codes "gCU") s.current
