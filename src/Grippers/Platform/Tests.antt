-- ===== src/Grippers/Platform/Tests.antt =====
-- The theorems about the platforms at concrete inputs.
use tactile_sensors.Base.{
  inl, List, [], ◌∷◌, ◌+◌, ℕ, arith, refl, true, false, none, some, if◌then◌else◌, ◌==◌,
}
use tactile_sensors.Grippers.Platform.Std.{TimerRound, sleep_until, wait_until}
use tactile_sensors.Grippers.Platform.Std.Sleeps.{Sleeps, sleep_until-Sleeps}
use tactile_sensors.Grippers.Platform.Std.Waits.{Moment, Waits, checks_at, wait_until-Waits}
use tactile_sensors.Grippers.Platform.ThreadX.{
  Phase, Reach, System, checking, fresh, getting, here, idle, lock, next, outside, publish,
  published, register, registered, unlock, update,
}
use tactile_sensors.Grippers.Platform.ThreadX.OneWaiter.{IsNotified, alone-IsNotified}
use tactile_sensors.Grippers.Platform.ThreadX.Stolen.{IsMissed, Reach-IsMissed, before}

-- What the threads were last called with.
abbrev goals : ℕ → ℕ
goals i = i

-- Thread 0 waits, and its exchange is published.
abbrev waited : System
waited = record {
  owner = none;
  count = 0 + 1;
  closed = false;
  waiters = 0 + 1;
  tokens = 0;
  publisher = published;
  closer = idle;
  phase = update (update (update (λ i. outside) 0 checking) 0 registered) 0 getting;
  goal = update (λ i. 0) 0 0;
}

waited-Reach : Reach 1 (fresh 0) waited
waited-Reach =
    next
      (next
        (next (next here (lock 0 0 (omega arith) refl refl))
          (register 0 (omega arith) refl (omega arith) refl))
        (unlock 0 (omega arith) refl))
      (publish refl refl)

alone-IsNotified_example : IsNotified waited
alone-IsNotified_example = alone-IsNotified 0 waited-Reach refl (inl (omega arith))

abbrev first_waits : ℕ → Phase
first_waits i = if i == 0 then getting else outside

Reach-IsMissed_example : (s : System) × Reach 2 (before 0 first_waits goals) s × IsMissed s
Reach-IsMissed_example = Reach-IsMissed goals 0 1 first_waits refl refl (omega arith) (omega arith)

-- A wake-up without a notification, and one after the first.
abbrev moments : List Moment
moments = record { now = 10; notifications = 0 } ∷ record { now = 20; notifications = 1 } ∷ []

wait_until-Waits_example : Waits 7 100 moments (wait_until 7 100 (checks_at 7 moments))
wait_until-Waits_example =
    wait_until-Waits 7 100 moments (omega arith) (omega arith, (omega arith, tt))

-- The timer fails in its second round.
abbrev timer : List TimerRound
timer =
    record { now = 10; set_and_waited = true } ∷ record { now = 50; set_and_waited = false } ∷ []

sleep_until-Sleeps_example :
    Sleeps 100 (some timer) (60 ∷ 120 ∷ []) (sleep_until 100 (some timer) (60 ∷ 120 ∷ []))
sleep_until-Sleeps_example = sleep_until-Sleeps 100 (some timer) (60 ∷ 120 ∷ [])
