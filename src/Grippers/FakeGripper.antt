-- ===== src/Grippers/FakeGripper.antt =====
-- The fake gripper's device: src/fake/register_model.hpp and src/fake/register_model.cpp. The
-- register file is a function on addresses; every access that the code makes is below
-- `register_count`. The asserts are those of a release build, which checks nothing there.
pub mod Registers
pub mod Status
pub mod Protocol
use tactile_sensors.Base.{
  ℕ, Bool, List, [], false, get_or, if◌then◌else◌, leb, ltb, not, set, suc, true, zero, ◌%◌, ◌&&◌,
  ◌+◌, ◌-◌, ◌^◌, ◌∷◌,
}
use tactile_sensors.Grippers.Blocks.Writers.{
  set_activated, set_activation_state, set_fault_status_byte, set_go_to_enabled,
  set_object_detection,
}
use tactile_sensors.Grippers.Blocks.Packing.{
  bytes_from_registers, command_address, registers_from_bytes, status_address,
}
use tactile_sensors.Grippers.Log.{Line, refused_read, refused_write, error}
use tactile_sensors.Grippers.Blocks.{
  GripperCommand, GripperStatus, at_requested_position, command_data, command_of_data,
  empty_command, empty_status, go_to, status_data, status_of_data, activate, complete, get,
}

abbrev pub block_registers : ℕ
block_registers = 8

abbrev pub reported_current : ℕ
reported_current = 0x2A

abbrev pub register_count : ℕ
register_count = status_address + block_registers

pub record RegisterModel : Type 0 where
  pub registers : ℕ → ℕ
  pub previous_activate_bit : Bool
  pub activation_done : Bool

abbrev pub fresh_model : RegisterModel
fresh_model = record { registers = λ r. 0; previous_activate_bit = false; activation_done = false }

-- `last` is computed in uint32_t, where an empty range at address 0 wraps.
unfoldable pub contains_range : ℕ → ℕ → Bool
contains_range address quantity = ltb ((address + quantity + 2 ^ 32 - 1) % 2 ^ 32) register_count

abbrev pub in_command_block : ℕ → Bool
in_command_block reg = leb command_address reg && ltb reg (command_address + block_registers)

-- The rounds of the loop in `read` from `i` on, with `n` left.
unfoldable pub read_from : (ℕ → ℕ) → ℕ → ℕ → ℕ → List ℕ → List ℕ
read_from registers address zero i out = out
read_from registers address (suc n) i out =
    let reg = (address + i) % 2 ^ 16 in
    read_from registers address n (i + 1)
      (set out i (if in_command_block reg then 0 else registers reg))

-- The caller's buffer after the call, and the lines logged.
unfoldable pub read : RegisterModel → ℕ → ℕ → List ℕ → List ℕ × List Line
unfolding contains_range read_from
read m address quantity out =
    if contains_range address quantity
    then (read_from m.registers address quantity 0 out, [])
    else (out, record { level = error; message = refused_read address quantity } ∷ [])

-- `std::copy_n(values, quantity, registers + address)`.
unfoldable pub copy_n : List ℕ → ℕ → ℕ → (ℕ → ℕ) → ℕ → ℕ
copy_n values quantity address registers r =
    if leb address r && ltb r (address + quantity)
    then get_or values (r - address) 0
    else registers r

-- The registers of `[address, address + n)`.
unfoldable pub block_at : (ℕ → ℕ) → ℕ → ℕ → List ℕ
block_at registers address zero = []
block_at registers address (suc n) = registers address ∷ block_at registers (address + 1) n

unfoldable pub command : RegisterModel → GripperCommand
unfolding block_at bytes_from_registers command_of_data command_data
command m = command_of_data (
    bytes_from_registers (block_at m.registers command_address block_registers)
      (command_data empty_command))

unfoldable pub status : RegisterModel → GripperStatus
unfolding block_at bytes_from_registers status_of_data status_data
status m = status_of_data (
    bytes_from_registers (block_at m.registers status_address block_registers)
      (status_data empty_status))

unfoldable pub set_status : RegisterModel → GripperStatus → RegisterModel
unfolding copy_n registers_from_bytes status_data
set_status m s = record m {
  registers =
      copy_n (registers_from_bytes block_registers (status_data s)) block_registers status_address
        m.registers;
}

-- A rising edge of rACT completes the activation, and a clear rACT undoes it.
unfoldable pub next_done : Bool → Bool → Bool → Bool
next_done previous done activate_bit =
    if activate_bit then (if not previous then true else done) else false

-- The status that is built up from the empty block.
unfoldable pub next_status : Bool → Bool → Bool → ℕ → ℕ → GripperStatus
unfolding set_activated set_activation_state set_go_to_enabled set_object_detection
    set_fault_status_byte
next_status activate_bit done go_to_bit fault position_request =
    let s1 = set_activated (set_fault_status_byte empty_status fault) activate_bit in
    let s2 =
      if activate_bit && done
      then (let active = set_activation_state s1 complete in
          if go_to_bit
          then set_object_detection (set_go_to_enabled active true) at_requested_position
          else active)
      else s1 in
    record s2 {
      position_request_echo = position_request;
      position = position_request;
      current = reported_current;
    }

-- The device with its new edge tracking, and the status.
unfoldable pub process_command :
    RegisterModel → GripperCommand → GripperStatus → RegisterModel × GripperStatus
process_command m c current_status =
    let activate_bit = get c.action activate in
    let done = next_done m.previous_activate_bit m.activation_done activate_bit in
    let fault = if activate_bit then current_status.fault_status else 0 in
    (
      record m { previous_activate_bit = activate_bit; activation_done = done },
      next_status activate_bit done (get c.action go_to) fault c.position_request,
    )

unfoldable pub write : RegisterModel → ℕ → ℕ → List ℕ → RegisterModel × List Line
write m address quantity values =
    if contains_range address quantity
    then (let m1 = record m { registers = copy_n values quantity address m.registers } in
        let (m2, s) = process_command m1 (command m1) (status m1) in (set_status m2 s, []))
    else (m, record { level = error; message = refused_write address quantity } ∷ [])
