-- ===== src/Grippers/Recorder/Counting.antt =====
-- What the Recorder of examples/exchange_log.cpp has counted in the end, and what is in its file.
use tactile_sensors.Base.{
  Bool, Bool-cases, List, Option, [], ap, arith, false, inl, inr, none, refl, some, subst, true,
  ◌*◌, ◌+◌, ◌<◌, ◌^◌, ◌∷◌, ◌≡◌, ◌≤◌, ℕ,
}
use tactile_sensors.Grippers.Image.{Blocked, StampedExchange, World, count_of, returned, waiting}
use tactile_sensors.Grippers.Recorder.{
  Recorder, Round, RunEnd, after_wait, blocked, cycle_timeout, failed, new_recorder, next_count,
  record_exchange, run, run_from, running, stopped,
}
use tactile_sensors.Grippers.Wait.{nanoseconds, remaining, wait_for_exchange_count}
use tactile_sensors.Grippers.Wait.Counting.{final_count}
use tactile_sensors.Grippers.Wait.Counts.{
  Counted, IsSteady, Leaves-IsSteady, wait_for_exchange_count-Counted,
}
use tactile_sensors.Grippers.Recorder.Rows.{IsCounting, Rises, gaps, record_exchange-IsCounting}

-- The recorder between two rounds, and the exchanges that are still to come.
pub record IsReady (first : ℕ) (r : Recorder) (w : World) : Type 0 where
  pub counting : IsCounting first r
  pub unfailed : r.write_failed ≡ false
  pub steady : IsSteady w
  pub behind : r.written ≤ final_count w

-- The state at the end: the write has failed exactly if the loop says so.
abbrev pub IsFailed : RunEnd → Bool → Type 0
IsFailed failed b = b ≡ true
IsFailed stopped b = b ≡ false
IsFailed blocked b = b ≡ false
IsFailed running b = b ≡ false

pub Recorded : ℕ → RunEnd × Recorder → Type 0
Recorded first (end, r) = IsCounting first r × IsFailed end r.write_failed

-- One wait of the loop: the timeout is below the longest that the clock holds.
wait-Counted :
    (r : Recorder) (w : World)
    → r.written + 1 < 2 ^ 64
    → IsSteady w
    → Counted w
        (r.written + 1)
        (w.now + cycle_timeout * nanoseconds)
        (wait_for_exchange_count w (next_count r) cycle_timeout)
unfolding remaining
wait-Counted r w h s =
    let deadline = w.now + cycle_timeout * nanoseconds in
    let next : next_count r ≡ r.written + 1 = omega arith in
    let left : remaining deadline w.now ≡ cycle_timeout = omega arith in
    subst (λ t. Counted w (r.written + 1) deadline (wait_for_exchange_count w (next_count r) t))
      left
      (rw next
        (wait_for_exchange_count-Counted w (r.written + 1) deadline (omega arith) s (omega arith)))

after_wait-Recorded :
    (first deadline : ℕ) (r : Recorder) (w : World) (good : Bool)
    (b : Blocked (Option StampedExchange)) (go : Recorder → World → RunEnd × Recorder)
    → IsReady first r w
    → Counted w (r.written + 1) deadline b
    → ((r' : Recorder) (v : World) → IsReady first r' v → Recorded first (go r' v))
    → Recorded first (after_wait r good b go)
unfolding after_wait Recorded Counted
after_wait-Recorded first deadline r w good (waiting u) go i c k = (i.counting, i.unfailed)
after_wait-Recorded first deadline r w good (returned none v) go i c k = k r v (record {
  counting = i.counting;
  unfailed = i.unfailed;
  steady = Leaves-IsSteady w v c.0 i.steady;
  behind = omega (arith, c.0.counts, i.behind);
})
after_wait-Recorded first deadline r w true (returned (some e) v) go i c k =
    let recorded =
      record_exchange-IsCounting first true r e i.counting i.unfailed (omega arith)
        (omega (arith, ap count_of c.1, c.0.counts, i.steady.counts)) in
    k (record_exchange true r e) v (record {
      counting = recorded.0;
      unfailed = recorded.1;
      steady = Leaves-IsSteady w v c.0 i.steady;
      behind = rw recorded.2 (omega (arith, ap count_of c.1));
    })
after_wait-Recorded first deadline r w false (returned (some e) v) go i c k =
    let recorded =
      record_exchange-IsCounting first false r e i.counting i.unfailed (omega arith)
        (omega (arith, ap count_of c.1, c.0.counts, i.steady.counts)) in
    (recorded.0, recorded.1)

run_from-Recorded :
    (first : ℕ) (rounds : List Round) (r : Recorder) (w : World)
    → IsReady first r w
    → Recorded first (run_from rounds r w)
unfolding run_from Recorded
run_from-Recorded first [] r w i = (i.counting, i.unfailed)
run_from-Recorded first (k ∷ ks) r w i = elim (Bool-cases k.stops) [
  | inl stop ↦ rw stop (i.counting, i.unfailed)
  | inr go ↦ rw go (
      after_wait-Recorded first (w.now + cycle_timeout * nanoseconds) r w k.good
        (wait_for_exchange_count w (next_count r) cycle_timeout) (λ r' v. run_from ks r' v) i
        (wait-Counted r w (omega (arith, i.behind, i.steady.counts)) i.steady)
        (λ r' v i'. run_from-Recorded first ks r' v i'))
]

-- Every exchange is accounted for, with the clock not running backwards and fewer than 2^64 exchanges,
-- however the other threads run and wherever the recorder is: the counts in the file go up from the
-- count at the start to the last one seen; the rows and the skipped exchanges, and a row whose write
-- failed, add up to the difference; and there is one line in the log for each jump of the counts, and
-- one for the failure.
pub run-Recorded :
    (rounds : List Round) (w : World)
    → IsSteady w
    → Recorded (count_of w.image.stamped) (run rounds w)
unfolding run Rises gaps
run-Recorded rounds w s =
    run_from-Recorded (count_of w.image.stamped) rounds (new_recorder w) w (record {
      counting = record { rises = refl; rows = refl; total = omega arith; warned = refl };
      unfailed = refl;
      steady = s;
      behind = omega arith;
    })
