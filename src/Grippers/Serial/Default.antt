-- ===== src/Grippers/Serial/Default.antt =====
-- DefaultSerial of src/detail/default_serial.cpp on a POSIX system: the connection that owns a
-- SerialPort, and the latency timer of an FTDI adapter on Linux.
pub mod Holding
pub mod Written
use tactile_sensors.Base.{
  Bool, List, Option, [], false, if◌then◌else◌, length, ltb, none, not, some, true, ◌++◌, ◌==◌, ◌∷◌,
  ℕ,
}
use tactile_sensors.Grippers.Log.{Level, debug, info, warn}
use tactile_sensors.Grippers.Serial.{
  Errno, Result, closed_port, empty_port, not_drained, ok, threw, write_timed_out,
}
use tactile_sensors.Grippers.Serial.Posix.{
  Ending, Got, Round, Took, Sent, returned, failed, running, read, write,
}
use tactile_sensors.Grippers.Serial.Posix.Descriptors.{
  Opened, SerialPort, Termios, close_port, new_port, open_port,
}
use tactile_sensors.Grippers.Serial.Posix.Draining.{
  DrainEnd, Queue, drain, drained, draining, late, raised,
}

-- The configuration of a connection; the port's name only matters by being empty or not.
pub record SerialConfig : Type 0 where
  pub has_name : Bool
  pub baudrate : ℕ
  pub timeout : ℕ
  pub latency_timer_ms : ℕ

-- The latency_timer attribute of the device: what it holds, if that is a number, whether it can be
-- opened for writing, and whether it takes the value.
pub record Attribute : Type 0 where
  pub current : Option ℕ
  pub opens : Bool
  pub accepts : Bool

-- Whether the timer has the wanted value afterwards, and whether the attribute was opened to write.
apply_latency_timer : ℕ → Attribute → Bool × Bool
apply_latency_timer wanted a =
    let write = if a.opens then (a.accepts, true) else (false, false) in
    elim a.current [ none ↦ write | some n ↦ if n == wanted then (true, false) else write ]

-- What setting the timer logs, for a device with the attribute or without it.
latency_log : ℕ → Option Attribute → List Level
unfolding apply_latency_timer
latency_log wanted none = if ltb 0 wanted then debug ∷ [] else []
latency_log wanted (some a) =
    if ltb 0 wanted then if (apply_latency_timer wanted a).0 then info ∷ [] else warn ∷ [] else []

-- The connection: the port that it owns, null when it is closed.
pub record Connection : Type 0 where
  pub port : Option SerialPort
  pub log : List Level

-- What the operating system answers to one `open`.
pub record Attempt : Type 0 where
  pub answer : Opened
  pub attribute : Option Attribute

-- The state of the process: the connection, and the descriptors that are open.
pub record Process : Type 0 where
  pub connection : Connection
  pub fds : List ℕ

publish :
    SerialConfig
    → Option Attribute
    → Connection
    → Result (Unit {0}) × SerialPort × List ℕ
    → Result (Unit {0}) × Process
unfolding latency_log
publish config attribute c (ok _, port, fds) = (
  ok tt,
  record {
    connection = record {
      port = some port;
      log = c.log ++ debug ∷ latency_log config.latency_timer_ms attribute;
    };
    fds = fds;
  },
)
-- The port that was not published is destroyed.
publish config attribute c (threw e, port, fds) = (
  threw e,
  record { connection = record c { log = c.log ++ debug ∷ [] }; fds = (close_port port fds).1 },
)

unfoldable pub open_serial :
    (ℕ → Bool)
    → (Termios → Termios)
    → SerialConfig
    → Attempt
    → Process
    → Result (Unit {0}) × Process
unfolding publish
open_serial has cfmakeraw config attempt s =
    let c = s.connection in
    elim c.port [
      | some port ↦ (ok tt, record s { connection = record c { log = c.log ++ debug ∷ [] } })
      | none ↦
          if not config.has_name
          then (threw empty_port, s)
          else publish config attempt.attribute c
              (open_port has cfmakeraw config.baudrate attempt.answer new_port s.fds)
    ]

unfoldable pub is_open : Process → Bool
is_open s = elim s.connection.port [ none ↦ false | some port ↦ true ]

unfoldable pub close_serial : Process → Process
close_serial s = elim s.connection.port [
  | none ↦ s
  | some port ↦ record {
    connection = record s.connection { port = none };
    fds = (close_port port s.fds).1;
  }
]

-- `read`: the vector is cut to what the port has read.
unfoldable pub read_bytes :
    Connection → ℕ → ℕ → ℕ → List (Round Got) → Ending (List ℕ) × List (Round Got)
read_bytes c size timeout now rounds = elim c.port [
  | none ↦ (failed closed_port [], rounds)
  | some port ↦
      let r = read size timeout now rounds in
      (
        elim r.0 [
          | returned c' ↦ returned c'.bytes
          | failed e c' ↦ failed e c'.bytes
          | running c' ↦ running c'.bytes
        ],
        r.1,
      )
]

-- `write`: how it ends once the drain has, if it does.
drain_end : List ℕ → DrainEnd → Ending (List ℕ)
drain_end handed drained = returned handed
drain_end handed late = failed not_drained handed
drain_end handed draining = running handed
drain_end handed (raised e) = failed e handed

sent_end : List ℕ → DrainEnd → Ending Sent → Ending (List ℕ)
unfolding drain_end
sent_end bytes flushed (returned s) =
    if ltb s.sent (length bytes)
    then failed write_timed_out s.handed
    else drain_end s.handed flushed
sent_end bytes flushed (failed e s) = failed e s.handed
sent_end bytes flushed (running s) = running s.handed

-- `write`, with the bytes that the port was handed; `drain_now` is the time when the drain begins.
unfoldable pub write_bytes :
    SerialConfig
    → Connection
    → List ℕ
    → ℕ
    → List (Round Took)
    → ℕ
    → List Queue
    → List (Option Errno)
    → Ending (List ℕ)
unfolding sent_end
write_bytes config c bytes now rounds drain_now queues answers = elim c.port [
  | none ↦ failed closed_port []
  | some port ↦
      sent_end bytes (drain port.baudrate config.timeout drain_now queues answers).1
        (write bytes config.timeout now rounds).0
]
