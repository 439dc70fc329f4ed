-- ===== src/Grippers/Serial/Posix/Poll.antt =====
-- `waitReady` of src/detail/posix/serial_port.cpp: the timeouts that it gives to `poll`.
use tactile_sensors.Base.{arith, ℕ, ◌*◌, ◌+◌, ◌-◌, ◌≡◌, ◌≤◌, ◌<◌}
use tactile_sensors.Grippers.Serial.{ok}
use tactile_sensors.Grippers.Serial.Posix.{
  Round, int32_max, ns_per_ms, poll_timeout, timed_out, wait_ready,
}

-- Time left never becomes a poll that does not wait.
pub poll_timeout_pos : (remaining : ℕ) → 0 < remaining → 0 < poll_timeout remaining
unfolding poll_timeout
poll_timeout_pos remaining h = omega arith

pub poll_timeout-covers :
    (remaining timeout : ℕ)
    → remaining ≤ timeout * ns_per_ms
    → timeout ≤ int32_max
    → remaining ≤ poll_timeout remaining * ns_per_ms
unfolding poll_timeout
poll_timeout-covers remaining timeout h k = omega arith

-- The clock of a round that begins at `start` or later, for a loop that polls for what `left` says
-- remains: it does not run backwards, and `poll` waits as long as it is told before it gives up.
pub record IsClocked {A : Type 0} (left : ℕ → ℕ) (start : ℕ) (r : Round A) : Type 0 where
  pub after_start : start ≤ r.asked_at
  pub after_asked : r.asked_at ≤ r.polled_at
  pub waited :
      wait_ready r.polled ≡ ok timed_out
      → r.asked_at + poll_timeout (left r.asked_at) * ns_per_ms ≤ r.polled_at

-- A poll for the rest of a timeout that gives up has waited until the deadline.
pub deadline_passed :
    {A : Type 0} (start timeout : ℕ) (r : Round A)
    → IsClocked (λ now. (start + timeout * ns_per_ms) - now) start r
    → timeout ≤ int32_max
    → wait_ready r.polled ≡ ok timed_out
    → start + timeout * ns_per_ms ≤ r.polled_at
deadline_passed start timeout r c h e =
    let left = (start + timeout * ns_per_ms) - r.asked_at in
    let begun : start ≤ r.asked_at = c.after_start in
    let waited : r.asked_at + poll_timeout left * ns_per_ms ≤ r.polled_at = c.waited e in
    let covered = poll_timeout-covers left timeout (omega arith) h in omega arith
