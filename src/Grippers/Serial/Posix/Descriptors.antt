-- ===== src/Grippers/Serial/Posix/Descriptors.antt =====
-- `open` and `close` of the SerialPort of src/detail/posix/serial_port.cpp, with the settings of the
-- line, and the descriptors that the process holds. The answers of the operating system are arguments.
use tactile_sensors.Base.{
  Bool, List, Option, [], false, if◌then◌else◌, none, some, true, ◌&&◌, ◌==◌, ◌||◌, ◌∷◌, ℕ,
}
use tactile_sensors.Grippers.Serial.{
  Errno, Result, is_missing, no_such_port, ok, os_error, threw, unsupported_baud_rate, ◌>>=◌,
}

-- The rates that every termios.h has, and those that only some have.
baud_constant : (ℕ → Bool) → ℕ → Option ℕ
baud_constant has rate =
    if rate == 1200
      || rate == 2400
      || rate == 4800
      || rate == 9600
      || rate == 19200
      || rate == 38400
      || rate == 57600
      || rate == 115200
      || rate == 230400
    then some rate
    else if (rate == 460800 || rate == 500000 || rate == 921600 || rate == 1000000) && has rate
    then some rate
    else none

-- The settings of a terminal that `configure` writes, and the others.
pub record Termios : Type 0 where
  pub ixoff : Bool
  pub ixany : Bool
  pub inpck : Bool
  pub iuclc : Bool
  pub cstopb : Bool
  pub crtscts : Bool
  pub cread : Bool
  pub clocal : Bool
  pub vmin : ℕ
  pub vtime : ℕ
  pub ispeed : ℕ
  pub ospeed : ℕ
  pub others : ℕ

-- What tcgetattr reports, and the errors, if any, of tcgetattr, of the two calls that set the speed and
-- of tcsetattr.
pub record Line : Type 0 where
  pub attributes : Termios
  pub found : Option Errno
  pub speeds : Option Errno
  pub applied : Option Errno

checked : Option Errno → Termios → Result Termios
checked none tty = ok tty
checked (some e) tty = threw (os_error e)

with_speed : ℕ → Option ℕ → Result ℕ
with_speed rate none = threw unsupported_baud_rate
with_speed rate (some speed) = ok speed

-- The settings on top of what cfmakeraw leaves.
line_settings : Termios → Termios
line_settings tty = record tty {
  ixoff = false;
  ixany = false;
  inpck = false;
  iuclc = false;
  cstopb = false;
  crtscts = false;
  cread = true;
  clocal = true;
  vmin = 0;
  vtime = 0;
}

unfoldable pub configure : (ℕ → Bool) → (Termios → Termios) → Line → ℕ → Result Termios
unfolding baud_constant checked with_speed line_settings
configure has cfmakeraw line baudrate = do
  speed ← with_speed baudrate (baud_constant has baudrate)
  tty ← checked line.found line.attributes
  let raw = line_settings (cfmakeraw tty)
  set ← checked line.speeds (record raw { ispeed = speed; ospeed = speed })
  checked line.applied set

pub record SerialPort : Type 0 where
  pub fd : Option ℕ
  pub baudrate : ℕ

abbrev pub new_port : SerialPort
new_port = record { fd = none; baudrate = 0 }

-- `close` of the operating system.
unfoldable pub os_close : ℕ → List ℕ → List ℕ
os_close fd [] = []
os_close fd (f ∷ fds) = if f == fd then fds else f ∷ os_close fd fds

-- What `open` of the operating system answers, with what follows on the new descriptor.
pub data Opened : Type 0 where
  opened : ℕ → Line → Opened
  not_opened : Errno → Opened

unfoldable pub configured :
    SerialPort → List ℕ → ℕ → ℕ → Result Termios → Result (Unit {0}) × SerialPort × List ℕ
configured p fds fd baudrate (ok tty) =
    (ok tt, record p { fd = some fd; baudrate = baudrate }, fd ∷ fds)
configured p fds fd baudrate (threw e) = (threw e, p, os_close fd (fd ∷ fds))

-- `open`: its result, the port, and the descriptors that the process holds.
unfoldable pub open_port :
    (ℕ → Bool)
    → (Termios → Termios)
    → ℕ
    → Opened
    → SerialPort
    → List ℕ
    → Result (Unit {0}) × SerialPort × List ℕ
unfolding configured
open_port has cfmakeraw baudrate (opened fd line) p fds =
    configured p fds fd baudrate (configure has cfmakeraw line baudrate)
open_port has cfmakeraw baudrate (not_opened e) p fds =
    (threw (if is_missing e then no_such_port else os_error e), p, fds)

unfoldable pub close_fd : SerialPort → List ℕ → Option ℕ → SerialPort × List ℕ
close_fd p fds none = (p, fds)
close_fd p fds (some fd) = (record p { fd = none }, os_close fd fds)

unfoldable pub close_port : SerialPort → List ℕ → SerialPort × List ℕ
unfolding close_fd
close_port p fds = close_fd p fds p.fd
