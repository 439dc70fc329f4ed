-- ===== src/Grippers/Platform/ThreadX/Stolen.antt =====
-- The condition variable of ports/threadx/threadx_platform.hpp with two threads that wait: one can take
-- the token that was put for the other.
use tactile_sensors.Base.{false, none, ◌+◌, ◌-◌, ◌<◌, ◌≡◌, ◌≤◌, ℕ, arith, refl}
use tactile_sensors.Grippers.Platform.ThreadX.{
  Phase, Reach, System, checking, done, getting, here, idle, load, lock, next, outside, publish,
  put, register, registered, take, unlock, update, woken,
}

-- Thread 0 is about to call tx_semaphore_get, thread 1 has yet to take the mutex, and nothing is under
-- way.
abbrev pub before : ℕ → (ℕ → Phase) → (ℕ → ℕ) → System
before count phase goal = record {
  owner = none;
  count = count;
  closed = false;
  waiters = 1;
  tokens = 0;
  publisher = idle;
  closer = idle;
  phase = phase;
  goal = goal;
}

-- The exchange of thread 0 is published, and nobody notifies it.
abbrev pub IsMissed : System → Type 0
IsMissed s =
    (s.phase 0 ≡ getting)
    × (s.goal 0 < s.count)
    × (s.publisher ≡ idle)
    × (s.closer ≡ idle)
    × (s.tokens ≡ 0)

-- Although waiters register while they hold the mutex, a notification can be lost: while thread 0 is
-- about to take its token, thread 1, which waits for a later exchange, can register, take the token
-- and leave thread 0 without one, with its exchange published and no notification under way.
pub Reach-IsMissed :
    (goal : ℕ → ℕ) (count later : ℕ) (phase : ℕ → Phase)
    → phase 0 ≡ getting
    → phase 1 ≡ outside
    → goal 0 ≤ count
    → count < later
    → (s : System) × Reach 2 (before count phase goal) s × IsMissed s
Reach-IsMissed goal count later phase first second soon far = (
  record {
    owner = none;
    count = count + 1;
    closed = false;
    waiters = 1 + 1;
    tokens = 0 + 1 - 1;
    publisher = idle;
    closer = idle;
    phase = update (update (update (update phase 1 checking) 1 registered) 1 getting) 1 woken;
    goal = update goal 1 later;
  },
  next
      (next
        (next
          (next
            (next (next (next (next here (publish refl refl)) (load refl)) (put 0 refl))
              (done refl))
            (lock 1 later (omega arith) second refl))
          (register 1 (omega arith) refl (omega arith) refl))
        (unlock 1 (omega arith) refl))
      (take 1 (omega arith) refl (omega arith)),
  (first, omega arith, refl, refl, refl),
)
