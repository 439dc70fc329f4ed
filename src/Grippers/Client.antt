-- ===== src/Grippers/Client.antt =====
-- The Modbus client: src/modbus_client.cpp. The Modbus stack is third-party code, nanomodbus: its
-- three transactions are the fields of `Stack`, over the state `D` of what is behind the link. A
-- `Failed` code stands for every nmbs_error but NMBS_ERROR_NONE.
pub mod OnFake
pub mod Callbacks
use tactile_sensors.Base.{ℕ, List}
use tactile_sensors.Grippers.Blocks.Packing.{
  bytes_from_registers, command_address, command_register_count, registers_from_bytes,
  status_address, status_register_count,
}
use tactile_sensors.Grippers.Blocks.{
  GripperCommand, GripperStatus, command_data, empty_status, status_data, status_of_data,
}

pub data Reply (A : Type 0) : Type 0 where
  done : A → Reply A
  failed : ℕ → Reply A

pub record Stack (D : Type 0) : Type 0 where
  -- Address and quantity; the registers read.
  pub read_holding_registers : D → ℕ → ℕ → Reply (List ℕ) × D
  -- Address and values.
  pub write_multiple_registers : D → ℕ → List ℕ → Reply (Unit {0}) × D
  -- Address and quantity to read, address and values to write.
  pub read_write_registers : D → ℕ → ℕ → ℕ → List ℕ → Reply (List ℕ) × D

-- Which transaction a DriverException is about.
pub data Transaction : Type 0 where
  reading_status writing_command exchanging : Transaction

pub data Result (A : Type 0) : Type 0 where
  ok : A → Result A
  driver_exception : Transaction → ℕ → Result A

-- `check`: an error of the stack becomes an exception that names the transaction.
unfoldable pub check : {A : Type 0} → Reply A → Transaction → Result A
check (done a) context = ok a
check (failed code) context = driver_exception context code

unfoldable pub map_result : {A B : Type 0} → (A → B) → Result A → Result B
map_result f (ok a) = ok (f a)
map_result f (driver_exception context code) = driver_exception context code

-- The status whose first bytes come from the registers.
unfoldable pub decoded_status : List ℕ → GripperStatus
unfolding status_of_data bytes_from_registers status_data
decoded_status registers =
    status_of_data (bytes_from_registers registers (status_data empty_status))

unfoldable pub encoded_command : GripperCommand → List ℕ
unfolding registers_from_bytes command_data
encoded_command c = registers_from_bytes command_register_count (command_data c)

module _ {D : Type 0} (stack : Stack D) where
  open stack use {read_holding_registers, write_multiple_registers, read_write_registers}

  unfoldable pub read_status : D → Result GripperStatus × D
  unfolding check map_result
  read_status d =
      let (reply, d') = read_holding_registers d status_address status_register_count in
      (map_result decoded_status (check reply reading_status), d')

  unfoldable pub write_command : D → GripperCommand → Result (Unit {0}) × D
  unfolding check
  write_command d c =
      let (reply, d') = write_multiple_registers d command_address (encoded_command c) in
      (check reply writing_command, d')

  unfoldable pub exchange : D → GripperCommand → Result GripperStatus × D
  unfolding check map_result
  exchange d c =
      let (reply, d') =
        read_write_registers d status_address status_register_count command_address
          (encoded_command c) in
      (map_result decoded_status (check reply exchanging), d')
