-- ===== src/Grippers/Platform/Std/Sleeps.antt =====
-- The sleeps of src/hosted/std_platform.cpp: when they end.
use tactile_sensors.Base.{
  Bool-cases, List, Option, [], arith, inl, inr, leb, leb→le, ltb, ltb→lt, none, some, true, ◌*◌,
  ◌<◌, ◌∷◌, ◌≡◌, ◌≤◌, ◌⊎◌, ℕ,
}
use tactile_sensors.Grippers.Platform.Std.{
  SleepEnd, TimerRound, done, due_time, gave_up, plain_sleep, sleep_until, sleeping, timer_sleep,
}

abbrev pub AllEarly : ℕ → List ℕ → Type 0
AllEarly time_point [] = Unit
AllEarly time_point (now ∷ readings) = (now < time_point) × AllEarly time_point readings

-- Every round of the timer was early and went well.
abbrev pub AllTimed : ℕ → List TimerRound → Type 0
AllTimed time_point [] = Unit
AllTimed time_point (r ∷ rounds) =
    (r.now < time_point) × (r.set_and_waited ≡ true) × AllTimed time_point rounds

-- How a sleep on the clock alone ends.
abbrev pub SleepsPlainly : ℕ → List ℕ → SleepEnd → Type 0
SleepsPlainly time_point readings (done now) = time_point ≤ now
SleepsPlainly time_point readings gave_up = ⊥
SleepsPlainly time_point readings sleeping = AllEarly time_point readings

-- How a sleep ends that may have a timer.
abbrev pub Sleeps : ℕ → Option (List TimerRound) → List ℕ → SleepEnd → Type 0
Sleeps time_point none readings e = SleepsPlainly time_point readings e
Sleeps time_point (some rounds) readings (done now) = time_point ≤ now
Sleeps time_point (some rounds) readings gave_up = ⊥
Sleeps time_point (some rounds) readings sleeping =
    AllTimed time_point rounds ⊎ AllEarly time_point readings

-- The timer is never set for less time than remains.
pub due_time-covers : (remaining : ℕ) → remaining < due_time remaining * 100
unfolding due_time
due_time-covers remaining = omega arith

plain_later :
    (time_point now : ℕ) (readings : List ℕ) (e : SleepEnd)
    → now < time_point
    → SleepsPlainly time_point readings e
    → SleepsPlainly time_point (now ∷ readings) e
plain_later time_point now readings (done t) h k = k
plain_later time_point now readings sleeping h k = (h, k)
plain_later time_point now readings gave_up h k = k

plain_sleep-SleepsPlainly :
    (time_point : ℕ) (readings : List ℕ)
    → SleepsPlainly time_point readings (plain_sleep time_point readings).1
unfolding plain_sleep
plain_sleep-SleepsPlainly time_point [] = tt
plain_sleep-SleepsPlainly time_point (now ∷ readings) = elim (Bool-cases (ltb now time_point)) [
  | inl e ↦ rw e (
      plain_later time_point now readings (plain_sleep time_point readings).1 (ltb→lt _ _ e)
        (plain_sleep-SleepsPlainly time_point readings))
  | inr e ↦ rw e (let h : time_point ≤ now = ground arith in h)
]

-- How the timer's loop ends.
abbrev Times : ℕ → List TimerRound → SleepEnd → Type 0
Times time_point rounds (done now) = time_point ≤ now
Times time_point rounds gave_up = Unit
Times time_point rounds sleeping = AllTimed time_point rounds

timer_later :
    (time_point : ℕ) (r : TimerRound) (rounds : List TimerRound) (e : SleepEnd)
    → r.now < time_point
    → r.set_and_waited ≡ true
    → Times time_point rounds e
    → Times time_point (r ∷ rounds) e
timer_later time_point r rounds (done t) h w k = k
timer_later time_point r rounds sleeping h w k = (h, w, k)
timer_later time_point r rounds gave_up h w k = k

timer_sleep-Times :
    (time_point : ℕ) (rounds : List TimerRound)
    → Times time_point rounds (timer_sleep time_point rounds).1
unfolding timer_sleep
timer_sleep-Times time_point [] = tt
timer_sleep-Times time_point (r ∷ rounds) = elim (Bool-cases (leb time_point r.now)) [
  | inl e ↦ rw e (leb→le _ _ e)
  | inr e ↦ rw e (elim (Bool-cases r.set_and_waited) [
    | inl w ↦
        let early : r.now < time_point = ground arith in
        simp w (
          timer_later time_point r rounds (timer_sleep time_point rounds).1 early w
            (timer_sleep-Times time_point rounds))
    | inr w ↦ rw w tt
  ])
]

after_timer :
    (time_point : ℕ) (rounds : List TimerRound) (readings : List ℕ) (e p : SleepEnd)
    → Times time_point rounds e
    → SleepsPlainly time_point readings p
    → Sleeps time_point
        (some rounds)
        readings
        (elim e [ done now ↦ done now | sleeping ↦ sleeping | gave_up ↦ p ])
after_timer time_point rounds readings (done now) p t h = t
after_timer time_point rounds readings sleeping p t h = inl t
after_timer time_point rounds readings gave_up (done now) t h = h
after_timer time_point rounds readings gave_up sleeping t h = inr h
after_timer time_point rounds readings gave_up gave_up t h = h

-- No sleep ends before its time: `sleepUntil` returns only once it has read a clock that has reached
-- the time point, with or without a waitable timer and also when the timer fails on the way. It goes
-- on only as long as all the clocks that it reads are earlier.
pub sleep_until-Sleeps :
    (time_point : ℕ) (timer : Option (List TimerRound)) (readings : List ℕ)
    → Sleeps time_point timer readings (sleep_until time_point timer readings)
unfolding sleep_until
sleep_until-Sleeps time_point none readings = plain_sleep-SleepsPlainly time_point readings
sleep_until-Sleeps time_point (some rounds) readings =
    after_timer time_point rounds readings (timer_sleep time_point rounds).1
      (plain_sleep time_point readings).1 (timer_sleep-Times time_point rounds)
      (plain_sleep-SleepsPlainly time_point readings)
