-- ===== src/Grippers/Serial/Tests.antt =====
-- The theorems about the serial ports at concrete inputs.
use tactile_sensors.Base.{
  List, [], ◌∷◌, ◌≡◌, ℕ, arith, refl, true, false, none, some, inl, ◌*◌, ◌+◌,
}
use tactile_sensors.Grippers.Serial.{eagain, eintr, enoent, eio, hung_up}
use tactile_sensors.Grippers.Serial.Default.{Process, SerialConfig, write_bytes}
use tactile_sensors.Grippers.Serial.Default.Holding.{
  Call, Holds, calls, calls-Holds, closing, opening,
}
use tactile_sensors.Grippers.Serial.Default.Written.{Written, write_bytes-Written}
use tactile_sensors.Grippers.Serial.Posix.{
  Got, Polled, Round, Took, failed, got, ns_per_ms, not_taken, polled, poll_timeout, read, refused,
  took, wait_ready,
}
use tactile_sensors.Grippers.Serial.Posix.Descriptors.{
  Line, SerialPort, Termios, not_opened, opened,
}
use tactile_sensors.Grippers.Serial.Posix.Draining.{Queue, drain}
use tactile_sensors.Grippers.Serial.Posix.HangUps.{InTwoParts, read-InTwoParts}
use tactile_sensors.Grippers.Serial.Posix.Reads.{IsServed, Reads, read-Reads}
use tactile_sensors.Grippers.Serial.Posix.Writes.{IsTaken}
use tactile_sensors.Grippers.Serial.Win32
use tactile_sensors.Grippers.Serial.Win32.Timeouts.{IsCached}

abbrev readable : Polled
readable = polled 1 (record { error = false; hang_up = false; asked_for = true })

abbrev nothing_ready : Polled
nothing_ready = polled 0 (record { error = false; hang_up = false; asked_for = false })

-- Two bytes come in time, and the third does not.
abbrev slow_reads : List (Round Got)
slow_reads =
    record { answer = refused eagain; asked_at = 1000; polled = readable; polled_at = 1500 }
    ∷ record { answer = got (7 ∷ 8 ∷ []); asked_at = 1600; polled = readable; polled_at = 1700 }
    ∷ record {
      answer = refused eagain;
      asked_at = 2000;
      polled = nothing_ready;
      polled_at = 10002000;
    }
    ∷ []

slow_reads-IsServed : IsServed 0 10 3 slow_reads
unfolding wait_ready poll_timeout
slow_reads-IsServed = (
  omega arith,
  record { after_start = omega arith; after_asked = omega arith; waited = λ e. cc },
  (
    omega arith,
    record { after_start = omega arith; after_asked = omega arith; waited = λ e. cc },
    (
      omega arith,
      record { after_start = omega arith; after_asked = omega arith; waited = λ e. omega arith },
      tt,
    ),
  ),
)

read-Reads_example : Reads 3 10 0 slow_reads (read 3 10 0 slow_reads)
read-Reads_example = read-Reads 3 10 0 slow_reads (omega arith) slow_reads-IsServed

abbrev empty_read : ℕ → Round Got
empty_read now = record { answer = got []; asked_at = now; polled = readable; polled_at = now }

abbrev first_part : Round Got
first_part = record {
  answer = got (7 ∷ 8 ∷ []);
  asked_at = 2000;
  polled = readable;
  polled_at = 2000;
}

in_two_parts :
    InTwoParts (0 + 10 * ns_per_ms) (empty_read 1000) first_part (empty_read 3000) 7 (8 ∷ [])
unfolding wait_ready
in_two_parts = (refl, omega arith, refl, refl, refl)

read-InTwoParts_example :
    read 3 10 0 (empty_read 1000 ∷ first_part ∷ empty_read 3000 ∷ [])
    ≡ (failed hung_up (record { bytes = 7 ∷ 8 ∷ []; readable = true }), [])
read-InTwoParts_example =
    read-InTwoParts 3 10 0 7 (8 ∷ []) (empty_read 1000) first_part (empty_read 3000) [] in_two_parts
      (omega arith)

-- The port takes two bytes, is interrupted, and takes the third.
abbrev writes : List (Round Took)
writes =
    record { answer = took 2; asked_at = 10; polled = readable; polled_at = 20 }
    ∷ record { answer = not_taken eintr; asked_at = 30; polled = readable; polled_at = 40 }
    ∷ record { answer = took 1; asked_at = 50; polled = readable; polled_at = 60 }
    ∷ []

abbrev message : List ℕ
message = 1 ∷ 2 ∷ 3 ∷ []

writes-IsTaken : IsTaken 0 10 3 writes
unfolding wait_ready
writes-IsTaken = (
  omega arith,
  record { after_start = omega arith; after_asked = omega arith; waited = λ e. cc },
  (
    omega arith,
    record { after_start = omega arith; after_asked = omega arith; waited = λ e. cc },
    (
      omega arith,
      record { after_start = omega arith; after_asked = omega arith; waited = λ e. cc },
      tt,
    ),
  ),
)

abbrev queues : List Queue
queues = record { queued = some 3; seen_at = 100 } ∷ record { queued = some 0; seen_at = 200 } ∷ []

abbrev no_flags : Termios
no_flags = record {
  ixoff = true;
  ixany = true;
  inpck = true;
  iuclc = false;
  cstopb = true;
  crtscts = true;
  cread = false;
  clocal = false;
  vmin = 1;
  vtime = 5;
  ispeed = 0;
  ospeed = 0;
  others = 0;
}

abbrev good_line : Line
good_line = record { attributes = no_flags; found = none; speeds = none; applied = none }

abbrev bad_line : Line
bad_line = record { attributes = no_flags; found = none; speeds = none; applied = some eio }

abbrev config : SerialConfig
config = record { has_name = true; baudrate = 115200; timeout = 10; latency_timer_ms = 1 }

abbrev process : Process
process = record { connection = record { port = none; log = [] }; fds = 3 ∷ [] }

-- The port is missing, cannot be configured, opens, is opened again, and is closed.
abbrev attempts : List Call
attempts =
    opening (record { answer = not_opened enoent; attribute = none })
    ∷ opening (record { answer = opened 4 bad_line; attribute = none })
    ∷ opening (record { answer = opened 4 good_line; attribute = none })
    ∷ opening (record { answer = opened 5 good_line; attribute = none })
    ∷ closing
    ∷ []

calls-Holds_example : Holds (3 ∷ []) (calls (λ rate. false) (λ tty. tty) config attempts process)
calls-Holds_example = calls-Holds (λ rate. false) (λ tty. tty) config (3 ∷ []) attempts process refl

abbrev open_port : SerialPort
open_port = record { fd = some 4; baudrate = 115200 }

write_bytes-Written_example : Written message (drain 115200 10 100 queues (none ∷ [])).1 (
    write_bytes config
      (record { port = some open_port; log = [] })
      message
      0
      writes
      100
      queues
      (none ∷ []))
write_bytes-Written_example =
    write_bytes-Written config (record { port = some open_port; log = [] }) open_port message 0
      writes 100 queues (none ∷ []) refl (omega arith) writes-IsTaken

abbrev unset : Win32.CommTimeouts
unset = record { read_interval = 1; read_total_constant = 1; write_total_constant = 1 }

abbrev dcb : Win32.Dcb
dcb = record {
  baud_rate = 9600;
  byte_size = 7;
  parity = 1;
  stop_bits = 1;
  binary = true;
  check_parity = true;
  outx_cts_flow = false;
  outx_dsr_flow = false;
  dtr_control = 1;
  dsr_sensitivity = false;
  tx_continue_on_xoff = false;
  out_x = false;
  in_x = false;
  error_char = false;
  null_bytes = false;
  rts_control = 1;
  abort_on_error = false;
}

-- A port is opened, read twice with one timeout, of which only the first sets it, and written.
abbrev port_calls : List Win32.Calls.Call
port_calls =
    Win32.Calls.opening 115200 (Win32.created 7 unset dcb none none none)
    ∷ Win32.Calls.reading 8 20 none (Win32.moved 8)
    ∷ Win32.Calls.reading 8 20 (some 5) (Win32.moved 3)
    ∷ Win32.Calls.writing 2 50 none (Win32.moved 2)
    ∷ []

calls-IsCached_example : IsCached (Win32.Calls.calls port_calls (Win32.new_port unset))
calls-IsCached_example =
    Win32.Calls.calls-IsCached port_calls (Win32.new_port unset) (inl (refl, refl, refl), tt)
