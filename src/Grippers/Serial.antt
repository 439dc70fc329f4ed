-- ===== src/Grippers/Serial.antt =====
-- What the serial ports of src/detail/posix/serial_port.cpp, src/detail/win32/serial_port.cpp and
-- src/detail/default_serial.cpp share: the exceptions that they throw, without their texts, and the
-- error numbers of the operating system that the code tells apart.
mod Tests
pub mod Posix
pub mod Default
pub mod Win32
use tactile_sensors.Base.{ℕ, Bool, true, false}

pub data Errno : Type 0 where
  eintr eagain ewouldblock enoent enodev enxio eio : Errno
  other : ℕ → Errno

pub data SerialIoException : Type 0 where
  hung_up unsupported_baud_rate no_such_port closed_port empty_port : SerialIoException
  write_timed_out not_drained : SerialIoException
  os_error : Errno → SerialIoException

pub data Result {ℓ} (A : Type ℓ) : Type ℓ where
  ok : A → Result A
  threw : SerialIoException → Result A

infixl 5 ◌>>=◌
abbrev pub ◌>>=◌ {ℓ κ} : {A : Type ℓ} {B : Type κ} → Result A → (A → Result B) → Result B
ok a >>= f = f a
threw e >>= f = threw e

abbrev pub is_eintr : Errno → Bool
is_eintr eintr = true
is_eintr _ = false

-- The call would have had to wait.
abbrev pub is_eagain : Errno → Bool
is_eagain eagain = true
is_eagain ewouldblock = true
is_eagain _ = false

-- The device is not there.
abbrev pub is_missing : Errno → Bool
is_missing enoent = true
is_missing enodev = true
is_missing enxio = true
is_missing _ = false
