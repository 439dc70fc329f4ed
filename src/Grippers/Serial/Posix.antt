-- ===== src/Grippers/Serial/Posix.antt =====
-- SerialPort of src/detail/posix/serial_port.cpp: the loops of read, write and drain. What the
-- operating system and the clock answer in one round of a loop is an element of a list; a loop that
-- has used up the list still runs. Times are in nanoseconds, timeouts in milliseconds.
pub mod Poll
pub mod Loop
pub mod Reads
pub mod HangUps
pub mod Writes
pub mod Written
pub mod Draining
pub mod Descriptors
use tactile_sensors.Base.{
  Bool, List, [], drop, false, if◌then◌else◌, leb, length, ltb, min, take, true, ℕ, ◌*◌, ◌+◌, ◌++◌,
  ◌-◌, ◌/◌, ◌∷◌, ◌==◌, not, ◌&&◌,
}
use tactile_sensors.Grippers.Serial.{
  Errno, Result, SerialIoException, eio, hung_up, is_eagain, is_eintr, ok, os_error, threw,
}

abbrev pub ns_per_ms : ℕ
ns_per_ms = 1000000

abbrev pub int32_max : ℕ
int32_max = 2147483647

-- The largest number of nanoseconds that a duration holds.
abbrev pub ns_max : ℕ
ns_max = 9223372036854775807

-- What `poll` reports of the descriptor: an error, a hang-up, and the events asked for.
pub record Revents : Type 0 where
  pub error : Bool
  pub hang_up : Bool
  pub asked_for : Bool

pub data Polled : Type 0 where
  poll_failed : Errno → Polled
  -- The number of ready descriptors and the events of this one.
  polled : ℕ → Revents → Polled

pub data WaitResult : Type 0 where
  ready interrupted timed_out : WaitResult

-- The milliseconds that `poll` is given for the nanoseconds that remain.
unfoldable pub poll_timeout : ℕ → ℕ
poll_timeout remaining = min ((remaining + 999999) / ns_per_ms) int32_max

unfoldable pub wait_ready : Polled → Result WaitResult
wait_ready (poll_failed e) = if is_eintr e then ok interrupted else threw (os_error e)
wait_ready (polled n events) =
    if events.error
    then threw (os_error eio)
    else if not events.asked_for && events.hang_up
    then threw hung_up
    else if n == 0
    then ok timed_out
    else ok ready

-- What a loop does after a round.
pub data Next (S : Type 0) : Type 0 where
  again : S → Next S
  stop : Next S
  fails : SerialIoException → Next S

-- How a loop ends, with the state that it has then.
pub data Ending (S : Type 0) : Type 0 where
  returned : S → Ending S
  failed : SerialIoException → S → Ending S
  running : S → Ending S

abbrev pub next_round :
    {S R : Type 0} → Next S → S → List R → (S → Ending S × List R) → Ending S × List R
next_round (again s') s rounds go = go s'
next_round stop s rounds go = (returned s, rounds)
next_round (fails e) s rounds go = (failed e s, rounds)

-- A loop that runs while `more` holds of its state, and the rounds that it leaves.
unfoldable pub run : {S R : Type 0} → (S → Bool) → (S → R → Next S) → S → List R → Ending S × List R
run more step s [] = if more s then (running s, []) else (returned s, [])
run more step s (r ∷ rounds) =
    if more s
    then next_round (step s r) s rounds (λ s'. run more step s' rounds)
    else (returned s, r ∷ rounds)

-- The answer of `read`: bytes, or an error.
pub data Got : Type 0 where
  got : List ℕ → Got
  refused : Errno → Got

-- A round: the answer of `read` or `write`, the time when the loop looks at the clock, the answer of
-- `poll`, and the time when it is there.
pub record Round (A : Type 0) : Type 0 where
  pub answer : A
  pub asked_at : ℕ
  pub polled : Polled
  pub polled_at : ℕ

-- The bytes that were collected, and the flag that a poll found more.
pub record Collected : Type 0 where
  pub bytes : List ℕ
  pub readable : Bool

awaited_input : List ℕ → Result WaitResult → Next Collected
awaited_input bytes (ok ready) = again (record { bytes = bytes; readable = true })
awaited_input bytes (ok interrupted) = again (record { bytes = bytes; readable = false })
awaited_input bytes (ok timed_out) = stop
awaited_input bytes (threw e) = fails e

unfoldable pub await_input : ℕ → List ℕ → Round Got → Next Collected
unfolding awaited_input wait_ready
await_input deadline bytes r =
    if leb deadline r.asked_at then stop else awaited_input bytes (wait_ready r.polled)

read_got : ℕ → Collected → Round Got → Got → Next Collected
read_got deadline c r (got (b ∷ bs)) = again (record c { bytes = c.bytes ++ b ∷ bs })
read_got deadline c r (got []) =
    if c.readable then fails hung_up else await_input deadline c.bytes r
read_got deadline c r (refused e) =
    if is_eintr e
    then again c
    else if is_eagain e
    then await_input deadline c.bytes r
    else fails (os_error e)

unfoldable pub read_round : ℕ → Collected → Round Got → Next Collected
unfolding read_got await_input
read_round deadline c r = read_got deadline c r r.answer

abbrev pub nothing_collected : Collected
nothing_collected = record { bytes = []; readable = false }

-- `read` of `size` bytes with a timeout, called at `now`, and the rounds that it leaves.
unfoldable pub read : ℕ → ℕ → ℕ → List (Round Got) → Ending Collected × List (Round Got)
unfolding run read_round
read size timeout now =
    run (λ c. ltb (length c.bytes) size) (read_round (now + timeout * ns_per_ms)) nothing_collected

-- The answer of `write`: how many bytes were taken, or an error.
pub data Took : Type 0 where
  took : ℕ → Took
  not_taken : Errno → Took

-- How many bytes were sent, and the bytes that the port has been handed.
pub record Sent : Type 0 where
  pub sent : ℕ
  pub handed : List ℕ

-- A zero timeout leaves all the time that a duration can hold.
unfoldable pub time_left : ℕ → ℕ → ℕ → ℕ
time_left timeout deadline now = if timeout == 0 then ns_max else deadline - now

awaited_room : Sent → Result WaitResult → Next Sent
awaited_room s (ok timed_out) = stop
awaited_room s (ok _) = again s
awaited_room s (threw e) = fails e

unfoldable pub await_room : ℕ → ℕ → Sent → Round Took → Next Sent
unfolding awaited_room wait_ready time_left
await_room timeout deadline s r =
    if time_left timeout deadline r.asked_at == 0
    then stop
    else awaited_room s (wait_ready r.polled)

write_took : List ℕ → ℕ → ℕ → Sent → Round Took → Took → Next Sent
write_took bytes timeout deadline s r (took n) =
    if ltb 0 n
    then again (record { sent = s.sent + n; handed = s.handed ++ take n (drop s.sent bytes) })
    else await_room timeout deadline s r
write_took bytes timeout deadline s r (not_taken e) =
    if is_eintr e
    then again s
    else if is_eagain e
    then await_room timeout deadline s r
    else fails (os_error e)

unfoldable pub write_round : List ℕ → ℕ → ℕ → Sent → Round Took → Next Sent
unfolding write_took await_room
write_round bytes timeout deadline s r = write_took bytes timeout deadline s r r.answer

abbrev pub nothing_sent : Sent
nothing_sent = record { sent = 0; handed = [] }

unfoldable pub write : List ℕ → ℕ → ℕ → List (Round Took) → Ending Sent × List (Round Took)
unfolding run write_round
write bytes timeout now =
    run (λ s. ltb s.sent (length bytes)) (write_round bytes timeout (now + timeout * ns_per_ms))
      nothing_sent
