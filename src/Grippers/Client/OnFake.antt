-- ===== src/Grippers/Client/OnFake.antt =====
-- The client of src/modbus_client.cpp on a link that serves the fake device of
-- src/fake/register_model.cpp: what a whole exchange brings back.
use tactile_sensors.Base.{ℕ, List, [], length, ◌∷◌, ◌≡◌, refl, true}
use tactile_sensors.Grippers.Blocks.Packing.{
  command_address, command_register_count, registers_from_bytes, status_register_count,
  status_address,
}
use tactile_sensors.Grippers.Blocks.{status_of_data, GripperCommand, command_data}
use tactile_sensors.Grippers.Client.{decoded_status, Stack, exchange, done, ok, encoded_command}
use tactile_sensors.Grippers.FakeGripper.{write, read, RegisterModel, contains_range}
use tactile_sensors.Grippers.FakeGripper.Protocol.{
  reply, sent, Answers, IsCommand, IsTracked, reply-sent, write-IsTracked,
}

-- The stack carries "read/write multiple registers" to the device: the device writes first, and then
-- reads, as the Modbus specification has it, if it covers both ranges.
pub record Serves (stack : Stack RegisterModel) : Type 0 where
  pub read_write :
      (m : RegisterModel) (from to : ℕ) (values : List ℕ)
      → contains_range from status_register_count ≡ true
      → contains_range to (length values) ≡ true
      → stack.read_write_registers m from status_register_count to values ≡ (
        done
            (read
              (write m to (length values) values).0
              from
              status_register_count
              (0 ∷ 0 ∷ 0 ∷ [])).0,
        (write m to (length values) values).0,
      )

-- On a stack that carries "read/write multiple registers" to the fake device, for a device whose
-- sweep is done exactly while rACT was last seen set and a command of byte-sized fields, one
-- exchange of the client succeeds and leaves the device as the write of the command does; the
-- status that it returns answers the command that it wrote, and the device still tracks rACT so.
pub exchange-Answers :
    (stack : Stack RegisterModel) (m : RegisterModel) (c : GripperCommand)
    → Serves stack
    → IsTracked m
    → IsCommand c
    → (exchange stack m c ≡ (ok (reply (sent m c)), sent m c))
      × Answers m c (reply (sent m c))
      × IsTracked (sent m c)
unfolding exchange contains_range registers_from_bytes encoded_command decoded_status status_of_data
exchange-Answers stack m c serves t v = (
  rw (serves.read_write m status_address command_address (encoded_command c) refl refl) refl,
  reply-sent m c t v,
  write-IsTracked m command_address command_register_count
      (registers_from_bytes command_register_count (command_data c)) t,
)
