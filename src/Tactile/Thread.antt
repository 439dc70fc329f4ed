-- ===== src/Tactile/Thread.antt =====
-- `threadLoop` of tsf/sdk_cpp/RobotiqTactileSensor.cpp as a whole: each round reads the port, takes the
-- bytes one by one, and handles the packets that they complete. `clock k` is the time, in milliseconds
-- from the start, at which packet `k` is handled.
mod Tests
pub mod Rounds
pub mod Delivered
use mathlib.Core.Option
use tactile_sensors.Base.{List, Option, [], if◌then◌else◌, none, some, ◌++◌, ◌+◌, ◌∷◌, ℕ}
use tactile_sensors.Tactile.Framing.{Receiver, UsbPacket, packet_of, usb_read_byte}
use tactile_sensors.Tactile.Port.{
  InputWaiting, Port, PortRead, autosend, got, length_error, nothing, read_round,
}
use tactile_sensors.Tactile.Reader.{Reader, handle}
use tactile_sensors.Tactile.Sensors.{Fingers}

-- The variables of the thread, and how many packets it has handled.
pub record Thread : Type 0 where
  pub port : Port
  pub receiver : Receiver
  pub reader : Reader
  pub handled : ℕ

-- One byte of the buffer, with the calls of the callback.
unfoldable pub take_byte : (ℕ → ℕ) → Thread → ℕ → Thread × List Fingers
take_byte clock t d =
    let (complete, receiver) = usb_read_byte t.receiver d in
    if complete
    then (let (reader, calls) = handle (clock t.handled) (packet_of receiver.packet) t.reader in
        (record t { receiver = receiver; reader = reader; handled = t.handled + 1 }, calls))
    else (record t { receiver = receiver }, [])

unfoldable pub take_bytes : (ℕ → ℕ) → Thread → List ℕ → Thread × List Fingers
unfolding take_byte
take_bytes clock t [] = (t, [])
take_bytes clock t (d ∷ ds) =
    let (t', calls) = take_byte clock t d in
    let (last, more) = take_bytes clock t' ds in (last, calls ++ more)

-- What the port and the clock of the data rate answer in a round.
pub record Round : Type 0 where
  pub first : Option ℕ
  pub waiting : InputWaiting
  pub rest : Option (List ℕ)
  pub now : ℕ

after_read : (ℕ → ℕ) → Thread → PortRead × Port → Option (Thread × List Fingers)
unfolding take_bytes
after_read clock t (nothing, port) = some (record t { port = port }, [])
after_read clock t (length_error, port) = none
after_read clock t (got bytes, port) = some (take_bytes clock (record t { port = port }) bytes)

-- A round of the loop; `none` is the exception of `resize`.
unfoldable pub thread_round : (ℕ → ℕ) → Thread → Round → Option (Thread × List Fingers)
unfolding after_read read_round
thread_round clock t r = after_read clock t (read_round t.port r.first r.waiting r.rest r.now)

-- The rounds after one that has not thrown.
unfoldable pub follow :
    Option (Thread × List Fingers)
    → (Thread → Option (Thread × List Fingers))
    → Option (Thread × List Fingers)
follow none go = none
follow (some (t, calls)) go = Option.map (λ (r : Thread × List Fingers). (r.0, calls ++ r.1)) (go t)

unfoldable pub thread_rounds : (ℕ → ℕ) → Thread → List Round → Option (Thread × List Fingers)
unfolding follow
thread_rounds clock t [] = some (t, [])
thread_rounds clock t (r ∷ rounds) =
    follow (thread_round clock t r) (λ t'. thread_rounds clock t' rounds)

-- The thread from its start until it is stopped: what it sends, and what it does.
unfoldable pub thread_loop :
    (ℕ → ℕ) → UsbPacket → ℕ → Thread → List Round → List (List ℕ) × Option (Thread × List Fingers)
unfolding thread_rounds autosend
thread_loop clock send period t rounds = elim (thread_rounds clock t rounds) [
  | none ↦ (autosend send period ∷ [], none)
  | some r ↦ (autosend send period ∷ autosend send 0 ∷ [], some r)
]
