-- ===== src/Grippers/Serial/Default/Written.antt =====
-- What a write of the DefaultSerial of src/detail/default_serial.cpp comes to.
use tactile_sensors.Base.{
  Bool-cases, List, Option, ap, arith, inl, inr, length, ltb, refl, some, sym, take, ℕ, ◌≡◌, ◌≤◌,
  ◌∙◌, take-length,
}
use tactile_sensors.Grippers.Serial.{Errno}
use tactile_sensors.Grippers.Serial.Default.{
  Connection, SerialConfig, drain_end, sent_end, write_bytes,
}
use tactile_sensors.Grippers.Serial.Posix.{
  Ending, Round, Sent, Took, failed, int32_max, returned, running, write,
}
use tactile_sensors.Grippers.Serial.Posix.Descriptors.{SerialPort}
use tactile_sensors.Grippers.Serial.Posix.Draining.{
  DrainEnd, Queue, drain, drained, draining, late, raised,
}
use tactile_sensors.Grippers.Serial.Posix.Writes.{IsTaken}
use tactile_sensors.Grippers.Serial.Posix.Written.{Writes, write-Writes}

-- How a write ends: with all bytes handed over and gone, or with the first of them handed over.
abbrev pub Written : List ℕ → DrainEnd → Ending (List ℕ) → Type 0
Written bytes flushed (returned handed) = (handed ≡ bytes) × (flushed ≡ drained)
Written bytes flushed (failed e handed) = (n : ℕ) × (handed ≡ take n bytes)
Written bytes flushed (running handed) = (n : ℕ) × (handed ≡ take n bytes)

drain_end-Written :
    (bytes : List ℕ) (flushed : DrainEnd) → Written bytes flushed (drain_end bytes flushed)
unfolding drain_end
drain_end-Written bytes drained = (refl, refl)
drain_end-Written bytes late = (length bytes, sym (take-length bytes))
drain_end-Written bytes draining = (length bytes, sym (take-length bytes))
drain_end-Written bytes (raised e) = (length bytes, sym (take-length bytes))

sent_end-Written :
    (bytes : List ℕ) (timeout now : ℕ) (rounds : List (Round Took)) (flushed : DrainEnd)
    (e : Ending Sent) (rest : List (Round Took))
    → Writes bytes timeout now rounds (e, rest)
    → Written bytes flushed (sent_end bytes flushed e)
unfolding sent_end
sent_end-Written bytes timeout now rounds flushed (returned s) rest h =
    elim (Bool-cases (ltb s.sent (length bytes))) [
      | inl few ↦ rw few (s.sent, h.0)
      | inr all ↦
          let whole : s.handed ≡ bytes =
            h.0 ∙ ap (λ n. take n bytes) (ground (arith, h.1)) ∙ take-length bytes in
          rw (all, whole) (drain_end-Written bytes flushed)
    ]
sent_end-Written bytes timeout now rounds flushed (failed e s) rest h = (s.sent, h.0)
sent_end-Written bytes timeout now rounds flushed (running s) rest h = (s.sent, h.0)

-- A write of an open connection that returns has handed all bytes to the port, in order and each
-- once, and they have left its transmit buffer; one that throws or still runs has handed over the
-- first of them. This holds for a timeout below 2^31 milliseconds, a port that never takes more bytes
-- than it is handed, and a clock that does not run backwards.
pub write_bytes-Written :
    (config : SerialConfig) (c : Connection) (port : SerialPort) (bytes : List ℕ) (now : ℕ)
    (rounds : List (Round Took)) (drain_now : ℕ) (queues : List Queue)
    (answers : List (Option Errno))
    → c.port ≡ some port
    → config.timeout ≤ int32_max
    → IsTaken now config.timeout (length bytes) rounds
    → Written bytes
        (drain port.baudrate config.timeout drain_now queues answers).1
        (write_bytes config c bytes now rounds drain_now queues answers)
unfolding write_bytes
write_bytes-Written config c port bytes now rounds drain_now queues answers owned short served =
    rw owned (
      sent_end-Written bytes config.timeout now rounds
        (drain port.baudrate config.timeout drain_now queues answers).1
        (write bytes config.timeout now rounds).0 (write bytes config.timeout now rounds).1
        (write-Writes bytes config.timeout now rounds short served))
