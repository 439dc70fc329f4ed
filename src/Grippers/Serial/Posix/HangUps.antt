-- ===== src/Grippers/Serial/Posix/HangUps.antt =====
-- What `SerialPort::read` of src/detail/posix/serial_port.cpp takes for a hang-up: the empty read of a
-- terminal that `poll` has found readable.
use tactile_sensors.Base.{
  List, [], ◌∷◌, ◌≡◌, ℕ, ◌+◌, ◌*◌, ◌<◌, length, lt→ltb, gt→leb, refl, true, arith,
}
use tactile_sensors.Grippers.Serial.{ok, hung_up}
use tactile_sensors.Grippers.Serial.Posix.{
  Got, Round, failed, got, ns_per_ms, read, ready, wait_ready, read_got, read_round, await_input,
  awaited_input, again, fails, run, nothing_collected,
}

-- A port that delivers in two parts: a wait that finds it readable, the first part, and an empty read.
abbrev pub InTwoParts : ℕ → Round Got → Round Got → Round Got → ℕ → List ℕ → Type 0
InTwoParts deadline quiet first gap b bs =
    (quiet.answer ≡ got [])
    × (quiet.asked_at < deadline)
    × (wait_ready quiet.polled ≡ ok ready)
    × (first.answer ≡ got (b ∷ bs))
    × (gap.answer ≡ got [])

module _ (deadline : ℕ) (quiet first gap : Round Got) (b : ℕ) (bs : List ℕ)
    (h : InTwoParts deadline quiet first gap b bs) where
  waited :
      read_round deadline nothing_collected quiet ≡ again (record { bytes = []; readable = true })
  unfolding read_round read_got await_input awaited_input
  waited = rw (h.0, gt→leb deadline quiet.asked_at h.1, h.2) refl

  collected :
      read_round deadline (record { bytes = []; readable = true }) first
      ≡ again (record { bytes = b ∷ bs; readable = true })
  unfolding read_round read_got
  collected = rw h.3 refl

  refused : read_round deadline (record { bytes = b ∷ bs; readable = true }) gap ≡ fails hung_up
  unfolding read_round read_got
  refused = rw h.4 refl

-- On a terminal, where a read of nothing hands back zero bytes, a message that arrives in two parts is
-- taken for a hang-up and lost: once `poll` has found the port readable and the first part is there,
-- the next empty read throws, however much of the timeout is left.
pub read-InTwoParts :
    (size timeout now b : ℕ) (bs : List ℕ) (quiet first gap : Round Got) (rounds : List (Round Got))
    → InTwoParts (now + timeout * ns_per_ms) quiet first gap b bs
    → length (b ∷ bs) < size
    → read size timeout now (quiet ∷ first ∷ gap ∷ rounds)
      ≡ (failed hung_up (record { bytes = b ∷ bs; readable = true }), rounds)
unfolding read run
read-InTwoParts size timeout now b bs quiet first gap rounds h few =
    let deadline = now + timeout * ns_per_ms in
    rw
      (
        lt→ltb 0 size (omega arith),
        waited deadline quiet first gap b bs h,
        lt→ltb 0 size (omega arith),
        collected deadline quiet first gap b bs h,
        lt→ltb (length (b ∷ bs)) size few,
        refused deadline quiet first gap b bs h,
      )
      refl
