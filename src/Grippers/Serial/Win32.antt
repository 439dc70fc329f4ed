-- ===== src/Grippers/Serial/Win32.antt =====
-- SerialPort of src/detail/win32/serial_port.cpp: the name of the device, the settings of the port, and
-- the timeouts, which are written to the driver only when they change. The answers of the driver are
-- arguments; an error is the code of GetLastError.
pub mod Timeouts
pub mod Names
pub mod Calls
use tactile_sensors.Base.{
  Bool, List, Option, [], drop, false, if◌then◌else◌, leb, length, ltb, none, some, true, ◌%◌, ◌&&◌,
  ◌++◌, ◌+◌, ◌==◌, ◌^◌, ◌||◌, ◌∷◌, ℕ,
}
use tactile_sensors.Grippers.Serial.{Result, no_such_port, ok, os_error, other, threw, ◌>>=◌}

lower : ℕ → ℕ
lower c = if leb b'A' c && leb c b'Z' then c + 32 else c

-- `_strnicmp` of three characters with "COM".
starts_with_com : List ℕ → Bool
unfolding lower
starts_with_com (a ∷ b ∷ c ∷ rest) = lower a == b'c' && lower b == b'o' && lower c == b'm'
starts_with_com _ = false

all_digits : List ℕ → Bool
all_digits [] = true
all_digits (c ∷ cs) = (leb b'0' c && leb c b'9') && all_digits cs

abbrev pub device_prefix : List ℕ
device_prefix = 92 ∷ 92 ∷ b'.' ∷ 92 ∷ []

-- The bytes of the path that `CreateFileA` is given.
unfoldable pub device_path : List ℕ → List ℕ
unfolding starts_with_com all_digits
device_path port =
    if ltb 3 (length port) && starts_with_com port && all_digits (drop 3 port)
    then device_prefix ++ port
    else port

-- The settings of a comm port.
pub record Dcb : Type 0 where
  pub baud_rate : ℕ
  pub byte_size : ℕ
  pub parity : ℕ
  pub stop_bits : ℕ
  pub binary : Bool
  pub check_parity : Bool
  pub outx_cts_flow : Bool
  pub outx_dsr_flow : Bool
  pub dtr_control : ℕ
  pub dsr_sensitivity : Bool
  pub tx_continue_on_xoff : Bool
  pub out_x : Bool
  pub in_x : Bool
  pub error_char : Bool
  pub null_bytes : Bool
  pub rts_control : ℕ
  pub abort_on_error : Bool

-- NOPARITY, ONESTOPBIT and the two DISABLE constants are 0.
abbrev pub dcb_settings : Dcb → ℕ → Dcb
dcb_settings dcb baudrate = record dcb {
  baud_rate = baudrate;
  byte_size = 8;
  parity = 0;
  stop_bits = 0;
  binary = true;
  check_parity = false;
  outx_cts_flow = false;
  outx_dsr_flow = false;
  dtr_control = 0;
  dsr_sensitivity = false;
  tx_continue_on_xoff = true;
  out_x = false;
  in_x = false;
  error_char = false;
  null_bytes = false;
  rts_control = 0;
  abort_on_error = false;
}

fail {ℓ} : {A : Type ℓ} → ℕ → Result A
fail code = threw (os_error (other code))

checked {ℓ} : {A : Type ℓ} → Option ℕ → A → Result A
unfolding fail
checked none a = ok a
checked (some code) a = fail code

-- `configure`: what GetCommState reports, and the errors of GetCommState and SetCommState.
unfoldable pub configure : Dcb → Option ℕ → Option ℕ → ℕ → Result Dcb
unfolding checked
configure dcb found applied baudrate = do
  state ← checked found dcb
  checked applied (dcb_settings state baudrate)

-- The COMMTIMEOUTS that the code sets; the others are 0.
pub record CommTimeouts : Type 0 where
  pub read_interval : ℕ
  pub read_total_constant : ℕ
  pub write_total_constant : ℕ

-- An int64_t of milliseconds, `none` for -1, as a DWORD.
abbrev pub dword : Option ℕ → ℕ
dword none = 4294967295
dword (some n) = n % 2 ^ 32

abbrev pub is_zero : Option ℕ → Bool
is_zero none = false
is_zero (some n) = n == 0

abbrev pub same_ms : Option ℕ → Option ℕ → Bool
same_ms none none = true
same_ms none (some m) = false
same_ms (some n) none = false
same_ms (some n) (some m) = n == m

unfoldable pub comm_timeouts : Option ℕ → Option ℕ → CommTimeouts
comm_timeouts read_ms write_ms = record {
  read_interval = if is_zero read_ms then 4294967295 else 0;
  read_total_constant = if is_zero read_ms then 0 else dword read_ms;
  write_total_constant = dword write_ms;
}

-- A read or a write that reached the driver, its timeout, and the timeouts in force.
pub data Transfer : Type 0 where
  read_file write_file : ℕ → CommTimeouts → Transfer

-- The port, with what the driver of its handle has in force and the transfers so far.
pub record SerialPort : Type 0 where
  pub handle : Option ℕ
  pub read_ms : Option ℕ
  pub write_ms : Option ℕ
  pub in_force : CommTimeouts
  pub transfers : List Transfer

abbrev pub new_port : CommTimeouts → SerialPort
new_port unset = record {
  handle = none;
  read_ms = none;
  write_ms = none;
  in_force = unset;
  transfers = [];
}

applied_timeouts : Option ℕ → Option ℕ → SerialPort → Option ℕ → Result (Unit {0}) × SerialPort
unfolding fail
applied_timeouts read_ms write_ms p none = (
  ok tt,
  record p { in_force = comm_timeouts read_ms write_ms; read_ms = read_ms; write_ms = write_ms },
)
applied_timeouts read_ms write_ms p (some code) = (fail code, p)

-- `setTimeouts`; the answer is that of SetCommTimeouts, if it is called.
unfoldable pub set_timeouts :
    Option ℕ → Option ℕ → SerialPort → Option ℕ → Result (Unit {0}) × SerialPort
unfolding applied_timeouts
set_timeouts read_ms write_ms p answer =
    if same_ms read_ms p.read_ms && same_ms write_ms p.write_ms
    then (ok tt, p)
    else applied_timeouts read_ms write_ms p answer

unfoldable pub close_handle : SerialPort → SerialPort
close_handle p = elim p.handle [
  | none ↦ p
  | some h ↦ record p { handle = none; read_ms = none; write_ms = none }
]

-- What the system answers to `open`: the handle with the timeouts that its driver has, the state of
-- the port, and the errors of configuring it and of setting its timeouts; or an error.
pub data Created : Type 0 where
  created : ℕ → CommTimeouts → Dcb → Option ℕ → Option ℕ → Option ℕ → Created
  not_created : ℕ → Created

-- The catch clause.
or_close : Result (Unit {0}) × SerialPort → Result (Unit {0}) × SerialPort
or_close (ok _, p) = (ok tt, p)
or_close (threw e, p) = (threw e, close_handle p)

set_up : Result Dcb → SerialPort → Option ℕ → Result (Unit {0}) × SerialPort
set_up (ok dcb) p answer = set_timeouts (some 0) (some 0) p answer
set_up (threw e) p answer = (threw e, p)

unfoldable pub open_handle : ℕ → Created → SerialPort → Result (Unit {0}) × SerialPort
unfolding or_close set_up fail
open_handle baudrate (created handle timeouts dcb found applied answer) p = or_close (
    set_up (configure dcb found applied baudrate)
      (record p { handle = some handle; in_force = timeouts }) answer)
open_handle baudrate (not_created code) p =
    (if code == 2 || code == 3 then threw no_such_port else fail code, p)

-- The answer of ReadFile or WriteFile, a count or an error.
pub data Moved : Type 0 where
  moved not_moved : ℕ → Moved

count : Moved → Result ℕ
unfolding fail
count (moved n) = ok n
count (not_moved code) = fail code

transfer :
    (CommTimeouts → Transfer) → Moved → Result (Unit {0}) × SerialPort → Result ℕ × SerialPort
unfolding count
transfer t answer (ok _, p) = (count answer, record p { transfers = t p.in_force ∷ p.transfers })
transfer t answer (threw e, p) = (threw e, p)

-- `read` and `write` of `size` bytes; the answers are those of SetCommTimeouts and of the transfer.
unfoldable pub read : ℕ → ℕ → Option ℕ → Moved → SerialPort → Result ℕ × SerialPort
unfolding transfer
read size timeout set answer p =
    if size == 0
    then (ok 0, p)
    else transfer (read_file timeout) answer (set_timeouts (some timeout) p.write_ms p set)

unfoldable pub write : ℕ → ℕ → Option ℕ → Moved → SerialPort → Result ℕ × SerialPort
unfolding transfer
write size timeout set answer p =
    if size == 0
    then (ok 0, p)
    else transfer (write_file timeout) answer (set_timeouts p.read_ms (some timeout) p set)

-- `drain` leaves the wait to FlushFileBuffers.
unfoldable pub drain : Option ℕ → Result Bool
unfolding checked
drain answer = checked answer true
