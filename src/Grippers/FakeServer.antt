-- ===== src/Grippers/FakeServer.antt =====
-- The Modbus server in front of the fake device, src/fake/gripper_server.cpp, and the serial port that
-- the driver is given in its place, src/fake/gripper_serial.cpp. What nanomodbus does when the server
-- is polled is an argument, `poll`; the callbacks below are what it calls.
pub mod Callbacks
use tactile_sensors.Base.{
  ℕ, length, Bool, List, [], drop, false, if◌then◌else◌, min, not, take, true, ◌++◌, ◌==◌,
}
use tactile_sensors.Grippers.Log.{Line}
use tactile_sensors.Grippers.FakeGripper.{RegisterModel, contains_range, read, write}

pub record Server : Type 0 where
  pub model : RegisterModel
  pub from_client : List ℕ
  pub to_client : List ℕ

pub data ServerError : Type 0 where
  no_error illegal_data_address : ServerError

-- The first bytes of the caller's buffer, how many, and what is left.
unfoldable pub read_from_client : Server → ℕ → List ℕ × ℕ × Server
read_from_client s count =
    let available = min count (length s.from_client) in
    (
      take available s.from_client,
      available,
      record s { from_client = drop available s.from_client },
    )

unfoldable pub write_to_client : Server → List ℕ → ℕ × Server
write_to_client s buf = (length buf, record s { to_client = s.to_client ++ buf })

-- The caller's buffer afterwards, and the lines that the model logs.
unfoldable pub on_read_holding_registers :
    Server → ℕ → ℕ → List ℕ → ServerError × List ℕ × List Line
unfolding read
on_read_holding_registers s address quantity out =
    if not (contains_range address quantity)
    then (illegal_data_address, out, [])
    else (let (out', lines) = read s.model address quantity out in (no_error, out', lines))

unfoldable pub on_write_multiple_registers :
    Server → ℕ → ℕ → List ℕ → ServerError × Server × List Line
on_write_multiple_registers s address quantity values =
    if not (contains_range address quantity)
    then (illegal_data_address, s, [])
    else (let (model, lines) = write s.model address quantity values in
        (no_error, record s { model = model }, lines))

unfoldable pub drain : Server → ℕ → List ℕ × Server
drain s limit =
    let count = min limit (length s.to_client) in
    (take count s.to_client, record s { to_client = drop count s.to_client })

unfoldable pub discard_pending_reply : Server → Server
discard_pending_reply s = record s { to_client = [] }

-- The port: whether it is open, and the server behind it.
pub record GripperSerial : Type 0 where
  pub is_open : Bool
  pub server : Server

unfoldable pub open_port : GripperSerial → GripperSerial
open_port p = record p { is_open = true }

unfoldable pub close_port : GripperSerial → GripperSerial
close_port p = record p { is_open = false }

-- A read without a timeout sees nothing.
unfoldable pub read_port : GripperSerial → ℕ → ℕ → List ℕ × GripperSerial
unfolding drain
read_port p size timeout =
    if timeout == 0
    then ([], p)
    else (let (data', server) = drain p.server size in (data', record p { server = server }))

abbrev pub port_timeout : ℕ
port_timeout = 100

module _ (poll : Server → Server) where
  unfoldable pub deliver : Server → List ℕ → Server
  deliver s request = poll (record s { from_client = s.from_client ++ request })

  unfoldable pub write_port : GripperSerial → List ℕ → GripperSerial
  unfolding deliver
  write_port p bytes = record p { server = deliver p.server bytes }
