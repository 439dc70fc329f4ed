-- ===== src/Grippers/Recorder.antt =====
-- examples/exchange_log.cpp: the Recorder, which writes each exchange of a gripper to a CSV file as it
-- completes. A round of its loop says whether the flag that stops it is set, and whether the stream is
-- good after a row; the thread that runs it is a `World`.
mod Tests
pub mod Rows
pub mod Counting
pub mod Csv
pub mod Columns
use tactile_sensors.Base.{
  Bool, List, Option, [], false, if◌then◌else◌, none, not, some, true, ◌%◌, ◌++◌, ◌+◌, ◌-◌, ◌^◌,
  ◌∷◌, ◌!=◌, ℕ,
}
use tactile_sensors.Grippers.Image.{
  Blocked, StampedExchange, World, count_of, returned, stamped_exchange, waiting,
}
use tactile_sensors.Grippers.Log.{Level, error, warn}
use tactile_sensors.Grippers.Wait.{wait_for_exchange_count}

-- In milliseconds.
abbrev pub cycle_timeout : ℕ
cycle_timeout = 500

-- The recorder: the last count that is written, its counters, the exchanges whose rows were written, and
-- what it has logged.
pub record Recorder : Type 0 where
  pub written : ℕ
  pub rows : ℕ
  pub skipped : ℕ
  pub write_failed : Bool
  pub file : List StampedExchange
  pub log : List Level

abbrev pub new_recorder : World → Recorder
new_recorder w = record {
  written = count_of (stamped_exchange w.image);
  rows = 0;
  skipped = 0;
  write_failed = false;
  file = [];
  log = [];
}

-- The next count, a uint64_t.
abbrev pub next_count : Recorder → ℕ
next_count r = (r.written + 1) % 2 ^ 64

-- The exchanges that were missed, if any.
unfoldable pub note_skipped : Recorder → StampedExchange → Recorder
note_skipped r e =
    if count_of e != next_count r
    then record r {
      skipped = (r.skipped + (2 ^ 64 + count_of e - r.written - 1)) % 2 ^ 64;
      log = r.log ++ warn ∷ [];
    }
    else r

-- The row, after which the stream is good or not.
unfoldable pub write_exchange : Bool → Recorder → StampedExchange → Recorder
write_exchange good r e =
    let row = record r { file = r.file ++ e ∷ []; written = count_of e } in
    if good
    then record row { rows = (r.rows + 1) % 2 ^ 64 }
    else record row { write_failed = true; log = r.log ++ error ∷ [] }

unfoldable pub record_exchange : Bool → Recorder → StampedExchange → Recorder
unfolding note_skipped write_exchange
record_exchange good r e = write_exchange good (note_skipped r e) e

pub record Round : Type 0 where
  pub stops : Bool
  pub good : Bool

-- How the loop ends; `blocked` in a wait, and `running` when the rounds are used up.
pub data RunEnd : Type 0 where
  stopped failed blocked running : RunEnd

-- What follows a wait.
unfoldable pub after_wait :
    Recorder
    → Bool
    → Blocked (Option StampedExchange)
    → (Recorder → World → RunEnd × Recorder)
    → RunEnd × Recorder
unfolding record_exchange
after_wait r good (waiting v) go = (blocked, r)
after_wait r good (returned none v) go = go r v
after_wait r good (returned (some e) v) go =
    if good then go (record_exchange good r e) v else (failed, record_exchange good r e)

unfoldable pub run_from : List Round → Recorder → World → RunEnd × Recorder
unfolding after_wait
run_from [] r w = (running, r)
run_from (k ∷ ks) r w =
    if k.stops
    then (stopped, r)
    else after_wait r k.good (wait_for_exchange_count w (next_count r) cycle_timeout)
        (λ r' v. run_from ks r' v)

unfoldable pub run : List Round → World → RunEnd × Recorder
unfolding run_from
run rounds w = run_from rounds (new_recorder w) w

-- The result of `stop`.
abbrev pub stop : Recorder → Bool
stop r = not r.write_failed
