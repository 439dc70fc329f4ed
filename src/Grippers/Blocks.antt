-- ===== src/Grippers/Blocks.antt =====
-- The command and status blocks: include/Robotiq/gripper/command.hpp, status.hpp and
-- fault_status.hpp, and include/Robotiq/detail/named_bit_array.hpp and register_map.hpp.
-- A byte is a number below 256; an enum that a cast makes from a masked field is read by its code.
pub mod Actions
pub mod Packing
pub mod Writers
pub mod Faults
pub mod Controller
use tactile_sensors.Base.{
  ℕ, ◌-◌, ◌/◌, ◌%◌, ◌^◌, bit_and, bit_or, Bool, true, false, ◌&&◌, List, [], ◌∷◌, if◌then◌else◌,
  ◌==◌, ◌!=◌, get_or, drop, replicate,
}

pub data ActionRequestBit : Type 0 where
  activate go_to auto_release auto_release_open_direction : ActionRequestBit

-- The bit's number in the action byte.
unfoldable pub position : ActionRequestBit → ℕ
position activate = 0
position go_to = 3
position auto_release = 4
position auto_release_open_direction = 5

unfoldable pub mask : ActionRequestBit → ℕ
unfolding position
mask bit = 2 ^ position bit % 256

-- `NamedBitArray<ActionRequestBit>`: its value, with `get`, `set`, `unset` and the two-way `set`.
unfoldable pub get : ℕ → ActionRequestBit → Bool
unfolding mask
get value bit = bit_and value (mask bit) != 0

unfoldable pub set_bit : ℕ → ActionRequestBit → ℕ
unfolding mask
set_bit value bit = bit_or value (mask bit) % 256

unfoldable pub unset : ℕ → ActionRequestBit → ℕ
unfolding mask
unset value bit = bit_and value (255 - mask bit)

unfoldable pub set_to : ℕ → ActionRequestBit → Bool → ℕ
unfolding set_bit unset
set_to value bit on = if on then set_bit value bit else unset value bit

pub record GripperCommand : Type 0 where
  pub action : ℕ
  pub reserved1 : ℕ
  pub reserved2 : ℕ
  pub position_request : ℕ
  pub speed : ℕ
  pub force : ℕ
  pub reserved_tail : List ℕ

-- What the member initialisers give.
abbrev pub empty_command : GripperCommand
empty_command = record {
  action = 0;
  reserved1 = 0;
  reserved2 = 0;
  position_request = 0;
  speed = 0;
  force = 0;
  reserved_tail = replicate 10 0;
}

unfoldable pub defaults : GripperCommand
unfolding set_bit
defaults = record empty_command {
  action = set_bit empty_command.action activate;
  speed = 0xFF;
  force = 0xFF;
}

-- `data()`: the bytes of the block in the manual's order, and the block that bytes stand for.
unfoldable pub command_data : GripperCommand → List ℕ
command_data c =
    c.action ∷ c.reserved1 ∷ c.reserved2 ∷ c.position_request ∷ c.speed ∷ c.force ∷ c.reserved_tail

unfoldable pub command_of_data : List ℕ → GripperCommand
command_of_data bytes = record {
  action = get_or bytes 0 0;
  reserved1 = get_or bytes 1 0;
  reserved2 = get_or bytes 2 0;
  position_request = get_or bytes 3 0;
  speed = get_or bytes 4 0;
  force = get_or bytes 5 0;
  reserved_tail = drop 6 bytes;
}

-- `std::memcmp(…) == 0` over blocks of one size.
unfoldable pub same_bytes : List ℕ → List ℕ → Bool
same_bytes [] [] = true
same_bytes [] (y ∷ ys) = false
same_bytes (x ∷ xs) [] = false
same_bytes (x ∷ xs) (y ∷ ys) = x == y && same_bytes xs ys

unfoldable pub same_command : GripperCommand → GripperCommand → Bool
unfolding same_bytes command_data
same_command lhs rhs = same_bytes (command_data lhs) (command_data rhs)

pub data ActivationState : Type 0 where
  reset in_progress reserved complete : ActivationState

pub data ObjectDetection : Type 0 where
  moving detected_while_opening detected_while_closing at_requested_position : ObjectDetection

abbrev pub state_code : ActivationState → ℕ
state_code reset = 0
state_code in_progress = 1
state_code reserved = 2
state_code complete = 3

abbrev pub detection_code : ObjectDetection → ℕ
detection_code moving = 0
detection_code detected_while_opening = 1
detection_code detected_while_closing = 2
detection_code at_requested_position = 3

-- The casts from a two-bit field.
abbrev pub state_of : ℕ → ActivationState
state_of code =
    if code == 0
    then reset
    else if code == 1
    then in_progress
    else if code == 2
    then reserved
    else complete

abbrev pub detection_of : ℕ → ObjectDetection
detection_of code =
    if code == 0
    then moving
    else if code == 1
    then detected_while_opening
    else if code == 2
    then detected_while_closing
    else at_requested_position

-- `GripperStatusFlags`, over its raw byte.
unfoldable pub activated : ℕ → Bool
activated bits = bit_and bits 0x01 != 0

unfoldable pub go_to_enabled : ℕ → Bool
go_to_enabled bits = bit_and bits 0x08 != 0

unfoldable pub activation_state : ℕ → ActivationState
activation_state bits = state_of (bit_and bits 0x30 / 2 ^ 4)

unfoldable pub object_detection : ℕ → ObjectDetection
object_detection bits = detection_of (bit_and bits 0xC0 / 2 ^ 6)

pub record GripperStatus : Type 0 where
  pub gripper_status : ℕ
  pub reserved1 : ℕ
  pub fault_status : ℕ
  pub position_request_echo : ℕ
  pub position : ℕ
  pub current : ℕ
  pub reserved_tail : List ℕ

abbrev pub empty_status : GripperStatus
empty_status = record {
  gripper_status = 0;
  reserved1 = 0;
  fault_status = 0;
  position_request_echo = 0;
  position = 0;
  current = 0;
  reserved_tail = replicate 10 0;
}

unfoldable pub status_data : GripperStatus → List ℕ
status_data s =
    s.gripper_status ∷ s.reserved1 ∷ s.fault_status ∷ s.position_request_echo ∷ s.position
    ∷ s.current ∷ s.reserved_tail

unfoldable pub status_of_data : List ℕ → GripperStatus
status_of_data bytes = record {
  gripper_status = get_or bytes 0 0;
  reserved1 = get_or bytes 1 0;
  fault_status = get_or bytes 2 0;
  position_request_echo = get_or bytes 3 0;
  position = get_or bytes 4 0;
  current = get_or bytes 5 0;
  reserved_tail = drop 6 bytes;
}
