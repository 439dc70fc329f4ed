-- ===== src/Grippers/Activation/Overflow.antt =====
-- `activate` and `recoverFromFault` of src/gripper.cpp with a timeout that the clock's range does not
-- hold: the deadline is computed without the cap of `detail::deadlineAfter`.
use tactile_sensors.Base.{
  Bool, ap, arith, none, refl, some, true, ◌%◌, ◌*◌, ◌+◌, ◌-◌, ◌<◌, ◌^◌, ◌∙◌, ◌≡◌, ◌≤◌, ℕ, inr,
  length, lt→ltb, suc,
}
use tactile_sensors.Grippers.Activation.{
  activate_gripper, after, judge, recover, recover_from_fault, timed_out, uncapped_deadline,
  wait_for_status, wait_operational,
}
use tactile_sensors.Grippers.Blocks.{GripperStatus}
use tactile_sensors.Grippers.Image.{World, count_of, returned, sync}
use tactile_sensors.Grippers.Image.Sync.{sync-instant}
use tactile_sensors.Grippers.Wait.{
  deadline_after, nanoseconds, remaining, up_to, wait_for, wait_for_exchange_after,
  wait_for_exchange_count,
}
use tactile_sensors.Grippers.Wait.Counts.{wait_for_record-sync}
use tactile_sensors.Grippers.Wait.Outcome.{wait_from-none}

module _ (w : World) (small : count_of w.image.stamped + 1 < 2 ^ 64) where
  abbrev desired : ℕ
  desired = (count_of w.image.stamped + 1) % 2 ^ 64

  wait-over :
      (timeout : ℕ) → timeout ≡ 0 → wait_for_exchange_count w desired timeout ≡ returned none w
  unfolding wait_for_exchange_count deadline_after up_to
  wait-over timeout h =
      let until = deadline_after w.now timeout in
      let last : desired - 1 ≡ count_of w.image.stamped = omega arith in
      ap (up_to desired) (
        wait_for_record-sync w desired until (omega arith)
        ∙ ap (λ n. sync w n until) last
        ∙ sync-instant w (count_of w.image.stamped) until (inr (inr (omega arith))))
      ∙ rw (lt→ltb (count_of w.image.stamped) desired (omega arith)) refl

  -- A wait whose deadline is over hands back none at once.
  wait_for_status-over :
      (predicate : GripperStatus → Bool) (deadline : ℕ)
      → deadline ≤ w.now
      → wait_for_status w predicate deadline ≡ some (returned none w)
  unfolding wait_for_status wait_for wait_for_exchange_after deadline_after remaining
  wait_for_status-over predicate deadline h =
      let fuel : length w.wakes + 2 ≡ suc (length w.wakes + 1) = omega arith in
      rw fuel (
        wait_from-none (λ e. predicate e.status) (deadline_after w.now (remaining deadline w.now))
          (length w.wakes + 1) desired w w
          (wait-over (remaining (deadline_after w.now (remaining deadline w.now)) w.now)
            (omega arith)))

uncapped_deadline-negative :
    (now timeout : ℕ)
    → 2 ^ 63 ≤ now + timeout * nanoseconds
    → now + timeout * nanoseconds < 2 ^ 64
    → uncapped_deadline now timeout ≡ 0
unfolding uncapped_deadline
uncapped_deadline-negative now timeout low high = ground arith

-- A timeout whose end is past the clock's range, but within twice that range, leaves no time at all, if
-- the sum of the time and the timeout wraps around: both procedures report a timeout at once, without a
-- wait and without setting a command, whatever the image holds, as long as its count does not wrap
-- around with the next exchange.
pub procedures-overflow :
    (w : World) (timeout : ℕ)
    → count_of w.image.stamped + 1 < 2 ^ 64
    → 2 ^ 63 ≤ w.now + timeout * nanoseconds
    → w.now + timeout * nanoseconds < 2 ^ 64
    → (activate_gripper w timeout ≡ some (returned timed_out w))
      × (recover_from_fault w timeout ≡ some (returned timed_out w))
unfolding activate_gripper recover_from_fault wait_operational after judge recover
procedures-overflow w timeout small low high =
    let e = uncapped_deadline-negative w.now timeout low high in
    let over = wait_for_status-over w small (λ s. true) 0 (omega arith) in
    (rw (e, over) refl, rw (e, over) refl)
