-- ===== src/Grippers/Printing/Plain.antt =====
-- No value that src/to_string.cpp prints has a space in it.
use tactile_sensors.Base.{Bool, List, ap, arith, false, get_or, refl, true, ◌%◌, ◌++◌, ◌∷◌, ◌≡◌, ℕ}
use tactile_sensors.Base.Bits.{every_below, every_below_sound}
use tactile_sensors.Grippers.Blocks.{
  ActivationState, ObjectDetection, at_requested_position, complete, detected_while_closing,
  detected_while_opening, in_progress, moving, reserved, reset,
}
use tactile_sensors.Grippers.Blocks.Controller.{
  ControllerFault, no_controller_fault, supply_24v_not_detected, no_device_detected,
  communication_not_ready, emergency_stop, controller_overcurrent, unlisted_controller,
}
use tactile_sensors.Grippers.Blocks.Faults.{
  GripperFault, no_fault, brake_problem, blocked_at_start, action_delayed, activation_required,
  over_temperature, no_communication, under_voltage, automatic_release_in_progress, internal_fault,
  activation_fault, overcurrent, automatic_release_complete, unlisted,
}
use tactile_sensors.Grippers.Printing.{
  bit_text, byte_text, codes, controller_name, detection_name, enum_text, fault_name, hex_digit,
  state_name,
}
use tactile_sensors.Grippers.Printing.Words.{no_space, no_space-append}

pub bit_plain : (on : Bool) → no_space (bit_text on) ≡ true
bit_plain true = refl
bit_plain false = refl

pub byte_plain : (n : ℕ) → no_space (byte_text n) ≡ true
unfolding byte_text
byte_plain n = ground arith

digits_plain : every_below 16 (λ k. no_space (hex_digit k ∷ codes ")")) ≡ true
unfolding every_below hex_digit
digits_plain = refl

hex_digit-mod : (n : ℕ) → hex_digit n ≡ hex_digit (n % 16)
unfolding hex_digit
hex_digit-mod n = ap (λ k. get_or (codes "0123456789ABCDEF") k 0) (omega arith)

hex_plain : (n : ℕ) → no_space (hex_digit n ∷ codes ")") ≡ true
hex_plain n = rw (hex_digit-mod n) (
    every_below_sound 16 (λ k. no_space (hex_digit k ∷ codes ")")) (n % 16) digits_plain
      (omega arith))

pub enum_plain :
    (name : List ℕ) (value : ℕ) → no_space name ≡ true → no_space (enum_text name value) ≡ true
unfolding enum_text
enum_plain name value h =
    no_space-append name (codes "(0x" ++ hex_digit value ∷ codes ")") h
      (no_space-append (codes "(0x") (hex_digit value ∷ codes ")") refl (hex_plain value))

pub state_plain : (s : ActivationState) → no_space (state_name s) ≡ true
unfolding state_name
state_plain reset = refl
state_plain in_progress = refl
state_plain reserved = refl
state_plain complete = refl

pub detection_plain : (s : ObjectDetection) → no_space (detection_name s) ≡ true
unfolding detection_name
detection_plain moving = refl
detection_plain detected_while_opening = refl
detection_plain detected_while_closing = refl
detection_plain at_requested_position = refl

pub fault_plain : (f : GripperFault) → no_space (fault_name f) ≡ true
unfolding fault_name
fault_plain no_fault = refl
fault_plain brake_problem = refl
fault_plain blocked_at_start = refl
fault_plain action_delayed = refl
fault_plain activation_required = refl
fault_plain over_temperature = refl
fault_plain no_communication = refl
fault_plain under_voltage = refl
fault_plain automatic_release_in_progress = refl
fault_plain internal_fault = refl
fault_plain activation_fault = refl
fault_plain overcurrent = refl
fault_plain automatic_release_complete = refl
fault_plain (unlisted n) = refl

pub controller_plain : (f : ControllerFault) → no_space (controller_name f) ≡ true
unfolding controller_name
controller_plain no_controller_fault = refl
controller_plain supply_24v_not_detected = refl
controller_plain no_device_detected = refl
controller_plain communication_not_ready = refl
controller_plain emergency_stop = refl
controller_plain controller_overcurrent = refl
controller_plain (unlisted_controller n) = refl
