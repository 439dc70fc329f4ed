-- ===== src/Grippers/Serial/Posix/Written.antt =====
-- `SerialPort::write` of src/detail/posix/serial_port.cpp: which bytes the port is handed, and when the
-- call gives up.
use tactile_sensors.Base.{
  List, [], arith, inl, inr, length, ltb→lt, refl, subst, true, ◌++◌, ◌∷◌, ◌≡◌, ◌⊎◌, ap, sym, ◌∙◌,
  ◌≤◌, ◌<◌, ◌+◌, ◌*◌, ◌-◌, ℕ, ltb, take, drop, zero, suc,
}
use tactile_sensors.Grippers.Serial.{ok}
use tactile_sensors.Grippers.Serial.Posix.{
  Sent, Took, Ending, Round, again, failed, int32_max, nothing_sent, ns_per_ms, ns_max, time_left,
  write, write_round, returned, run, running, timed_out, wait_ready, poll_timeout,
}
use tactile_sensors.Grippers.Serial.Posix.Poll.{IsClocked, deadline_passed}
use tactile_sensors.Grippers.Serial.Posix.Loop.{Ended, run-Ended}
use tactile_sensors.Grippers.Serial.Posix.Writes.{
  Follows, IsTaken, taken, take-append-take-drop, write_round-Follows,
}

-- The time at which a write may give up: the deadline, or for a zero timeout the end of the longest
-- poll that there is.
abbrev pub IsLate : ℕ → ℕ → Round Took → Type 0
IsLate now zero r = r.asked_at + int32_max * ns_per_ms ≤ r.polled_at
IsLate now (suc t) r = now + suc t * ns_per_ms ≤ r.polled_at

time_left_bounded : (t deadline now : ℕ) → time_left (suc t) deadline now ≡ deadline - now
unfolding time_left
time_left_bounded t deadline now = ground arith

time_left_unbounded : (deadline now : ℕ) → time_left 0 deadline now ≡ ns_max
unfolding time_left
time_left_unbounded deadline now = refl

longest_poll : poll_timeout ns_max ≡ int32_max
unfolding poll_timeout
longest_poll = refl

stop-IsLate :
    (now timeout : ℕ) (r : Round Took)
    → timeout ≤ int32_max
    → IsClocked (time_left timeout (now + timeout * ns_per_ms)) now r
    → (time_left timeout (now + timeout * ns_per_ms) r.asked_at ≡ 0)
      ⊎ (wait_ready r.polled ≡ ok timed_out)
    → IsLate now timeout r
stop-IsLate now zero r short c (inl e) =
    absurd (omega (arith, e, time_left_unbounded (now + 0 * ns_per_ms) r.asked_at))
stop-IsLate now zero r short c (inr e) =
    subst (λ l. r.asked_at + l * ns_per_ms ≤ r.polled_at)
      (ap poll_timeout (time_left_unbounded (now + 0 * ns_per_ms) r.asked_at) ∙ longest_poll)
      (c.waited e)
stop-IsLate now (suc t) r short c (inl e) =
    let asked : r.asked_at ≤ r.polled_at = c.after_asked in
    omega (arith, e, time_left_bounded t (now + suc t * ns_per_ms) r.asked_at)
stop-IsLate now (suc t) r short c (inr e) =
    deadline_passed now (suc t) r
      (record {
        after_start = c.after_start;
        after_asked = c.after_asked;
        waited = λ e.
            subst (λ l. r.asked_at + poll_timeout l * ns_per_ms ≤ r.polled_at)
              (time_left_bounded t (now + suc t * ns_per_ms) r.asked_at) (c.waited e);
      })
      short e

module _ (bytes : List ℕ) (timeout now : ℕ) where
  abbrev deadline : ℕ
  deadline = now + timeout * ns_per_ms

  record IsWriting (s : Sent) (used rest : List (Round Took)) : Type 0 where
    prefix : s.handed ≡ take s.sent bytes
    room : s.sent ≤ length bytes
    served : IsTaken now timeout (length bytes - s.sent) rest

  keep :
      (s s' : Sent) (used : List (Round Took)) (r : Round Took) (rest : List (Round Took))
      → IsWriting s used (r ∷ rest)
      → ltb s.sent (length bytes) ≡ true
      → write_round bytes timeout deadline s r ≡ again s'
      → IsWriting s' (used ++ r ∷ []) rest
  keep s s' used r rest h on e =
      let (sum, grown) =
        subst (Follows bytes timeout deadline s r) e
          (write_round-Follows bytes timeout deadline s r) in
      record {
        prefix =
            grown
            ∙ ap (λ bs. bs ++ take (taken r.answer) (drop s.sent bytes)) h.prefix
            ∙ take-append-take-drop s.sent (taken r.answer) bytes
            ∙ ap (λ n. take n bytes) (sym sum);
        room = omega (arith, sum, h.served.0, h.room);
        served = subst (λ n. IsTaken now timeout n rest) (omega (arith, sum)) h.served.2;
      }

  -- How a write ends.
  abbrev pub Writes : List (Round Took) → Ending Sent × List (Round Took) → Type 0
  Writes rounds (returned s, rest) =
      (s.handed ≡ take s.sent bytes)
      × (s.sent ≤ length bytes)
      × ((s.sent ≡ length bytes)
          ⊎ ((used : List (Round Took)) × (r : Round Took) × (rounds ≡ used ++ r ∷ rest)
              × (taken r.answer ≡ 0)
              × IsLate now timeout r))
  Writes rounds (failed e s, rest) =
      (s.handed ≡ take s.sent bytes)
      × (s.sent ≤ length bytes)
      × (used : List (Round Took)) × (r : Round Took) × (rounds ≡ used ++ r ∷ rest)
      × (taken r.answer ≡ 0)
  Writes rounds (running s, rest) =
      (s.handed ≡ take s.sent bytes) × (s.sent < length bytes) × (rest ≡ [])

  Writes-Ended :
      (rounds : List (Round Took)) (e : Ending Sent × List (Round Took))
      → timeout ≤ int32_max
      → Ended
          (λ s. ltb s.sent (length bytes))
          (write_round bytes timeout deadline)
          IsWriting
          []
          rounds
          e
      → Writes rounds e
  Writes-Ended rounds (returned s, rest) short (inl (used, split, h, over)) =
      (h.prefix, h.room, inl (ground (arith, h.room)))
  Writes-Ended rounds (returned s, rest) short (inr (used, r, split, h, e)) =
      let (none, why) =
        subst (Follows bytes timeout deadline s r) e
          (write_round-Follows bytes timeout deadline s r) in
      (h.prefix, h.room, inr (used, r, split, none, stop-IsLate now timeout r short h.served.1 why))
  Writes-Ended rounds (failed x s, rest) short (used, r, split, h, e) = (
    h.prefix,
    h.room,
    used,
    r,
    split,
    subst (Follows bytes timeout deadline s r) e (write_round-Follows bytes timeout deadline s r),
  )
  Writes-Ended rounds (running s, rest) short (none_left, h, on) =
      (h.prefix, ltb→lt _ _ on, none_left)

  -- A write with a timeout below 2^31 milliseconds, to a port that never takes more than it is handed
  -- and with a clock that does not run backwards, reports how many bytes the port took: these are the
  -- first bytes of the data, in order, each once. It reports fewer than all of them only when the
  -- deadline has passed; for a zero timeout, only when a poll of 2^31 - 1 milliseconds has found no
  -- room. It throws only in a round that takes no bytes, and while it runs some bytes are left.
  pub write-Writes :
      (rounds : List (Round Took))
      → timeout ≤ int32_max
      → IsTaken now timeout (length bytes) rounds
      → Writes rounds (write bytes timeout now rounds)
  unfolding write
  write-Writes rounds short served =
      Writes-Ended rounds
        (run (λ s. ltb s.sent (length bytes)) (write_round bytes timeout deadline) nothing_sent
          rounds)
        short
        (run-Ended (λ s. ltb s.sent (length bytes)) (write_round bytes timeout deadline) IsWriting
          keep nothing_sent [] rounds
          (record {
            prefix = refl;
            room = omega arith;
            served = subst (λ n. IsTaken now timeout n rounds) (omega arith) served;
          }))
