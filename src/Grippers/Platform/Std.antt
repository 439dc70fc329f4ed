-- ===== src/Grippers/Platform/Std.antt =====
-- src/hosted/std_platform.cpp: the condition variable with its generation, and the sleeps, also those on
-- a waitable timer of Windows. What the clock and the system say in one round of a loop is an element of
-- a list; a loop that has used up its list still runs. Times are in nanoseconds.
pub mod Waits
pub mod Sleeps
use tactile_sensors.Base.{
  Bool, List, Option, [], if◌then◌else◌, leb, ltb, none, some, ◌%◌, ◌&&◌, ◌*◌, ◌+◌, ◌-◌, ◌/◌, ◌==◌,
  ◌^◌, ◌∷◌, ℕ,
}

-- The generation of a condition variable, 64 bits.
unfoldable pub notify_all : ℕ → ℕ
notify_all generation = (generation + 1) % 2 ^ 64

-- What a waiter reads when it tests its loop: the generation and the clock.
pub record Check : Type 0 where
  pub generation : ℕ
  pub now : ℕ

pub data Outcome : Type 0 where
  -- It returned, with these tests not made.
  returned : List Check → Outcome
  waiting : Outcome

wait_from : ℕ → ℕ → List Check → Outcome
wait_from generation time_point [] = waiting
wait_from generation time_point (c ∷ checks) =
    if c.generation == generation && ltb c.now time_point
    then wait_from generation time_point checks
    else returned checks

-- `waitUntil`, which first reads the generation.
unfoldable pub wait_until : ℕ → ℕ → List Check → Outcome
unfolding wait_from
wait_until generation time_point checks = wait_from generation time_point checks

-- How a sleep ends: done at a reading of the clock, given up, or not yet; and what it waited for.
pub data SleepEnd : Type 0 where
  done : ℕ → SleepEnd
  gave_up sleeping : SleepEnd

-- A round of the waitable timer: the clock, and whether the timer could be set and waited for.
pub record TimerRound : Type 0 where
  pub now : ℕ
  pub set_and_waited : Bool

-- The time that the timer is set to, in units of 100 nanoseconds.
unfoldable pub due_time : ℕ → ℕ
due_time remaining = remaining / 100 + 1

-- `WaitableTimer::sleepUntil`, with the times that the timer was set to.
unfoldable pub timer_sleep : ℕ → List TimerRound → List ℕ × SleepEnd
unfolding due_time
timer_sleep time_point [] = ([], sleeping)
timer_sleep time_point (r ∷ rounds) =
    let later = timer_sleep time_point rounds in
    if leb time_point r.now
    then ([], done r.now)
    else if r.set_and_waited
    then (due_time (time_point - r.now) ∷ later.0, later.1)
    else (due_time (time_point - r.now) ∷ [], gave_up)

-- The loop over `sleep_for`, with the durations that it was given.
unfoldable pub plain_sleep : ℕ → List ℕ → List ℕ × SleepEnd
plain_sleep time_point [] = ([], sleeping)
plain_sleep time_point (now ∷ readings) =
    let later = plain_sleep time_point readings in
    if ltb now time_point then ((time_point - now) ∷ later.0, later.1) else ([], done now)

-- The timer of the thread, if there is one; `none` on a system without waitable timers, or whose
-- kernel refuses the flag.
unfoldable pub sleep_until : ℕ → Option (List TimerRound) → List ℕ → SleepEnd
unfolding timer_sleep plain_sleep
sleep_until time_point none readings = (plain_sleep time_point readings).1
sleep_until time_point (some rounds) readings = elim (timer_sleep time_point rounds).1 [
  | done now ↦ done now
  | sleeping ↦ sleeping
  | gave_up ↦ (plain_sleep time_point readings).1
]

-- `sleepFor` of some milliseconds.
unfoldable pub sleep_for : ℕ → ℕ → Option (List TimerRound) → List ℕ → SleepEnd
unfolding sleep_until
sleep_for now duration timer readings = sleep_until (now + duration * 1000000) timer readings
