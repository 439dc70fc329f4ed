-- ===== src/Grippers/Link/Pacing.antt =====
-- The exchange thread's loop, `GripperState::start` of src/gripper_state.cpp, and the throttle of
-- its failure messages, include/Robotiq/detail/throttle.hpp. Times are in nanoseconds since the
-- clock's epoch; the clock does not run backwards.
use tactile_sensors.Base.{
  ℕ, Bool, Bool-cases, List, [], arith, false, if◌then◌else◌, inl, inr, ltb, max, none, some, true,
  ◌++◌, ◌+◌, ◌-◌, ◌<◌, ◌∷◌, ◌≤◌,
}
use tactile_sensors.Grippers.Log.{Line, warn, cycle_failed}
use tactile_sensors.Grippers.Link.{exchange_once, Cycle, GripperState}

pub record Throttle : Type 0 where
  pub period : ℕ
  pub last : ℕ

-- Whether the callable runs, and the throttle afterwards.
unfoldable pub execute_if_allowed : Throttle → ℕ → Bool × Throttle
execute_if_allowed t now =
    if ltb (now - t.last) t.period then (false, t) else (true, record t { last = now })

-- The times, out of a list of calls, at which the callable runs.
unfoldable pub executed : Throttle → List ℕ → List ℕ
executed t [] = []
executed t (now ∷ later) =
    let (runs, t') = execute_if_allowed t now in
    let rest = executed t' later in if runs then now ∷ rest else rest

-- Each time is at least `period` after the one before it, the first one after `since`.
abbrev pub Spaced : ℕ → ℕ → List ℕ → Type 0
Spaced period since [] = Unit {0}
Spaced period since (t ∷ ts) = (since + period ≤ t) × Spaced period t ts

-- However often it is called, the throttled callable runs at times that are a period or more apart.
pub executed-Spaced :
    (t : Throttle) (calls : List ℕ) → 0 < t.period → Spaced t.period t.last (executed t calls)
unfolding executed execute_if_allowed
executed-Spaced t [] h = tt
executed-Spaced t (now ∷ later) h = elim (Bool-cases (ltb (now - t.last) t.period)) [
  | inl early ↦ rw early (executed-Spaced t later h)
  | inr late ↦ rw late (ground arith, executed-Spaced (record t { last = now }) later h)
]

-- The state of the thread between two rounds.
pub record Loop : Type 0 where
  pub gripper : GripperState
  pub next_cycle : ℕ
  pub throttle : Throttle

-- `_failureLogThrottle` allows a message a second.
abbrev pub started : GripperState → ℕ → Loop
started g now = record {
  gripper = record g { running = true };
  next_cycle = now;
  throttle = record { period = 1_000_000_000; last = 0 };
}

-- What a round meets: the exchange, and the clock as the throttle reads it, if it does, and as it is
-- read for the next cycle.
pub record Turn : Type 0 where
  pub cycle : Cycle
  pub throttled_at : ℕ
  pub paced_at : ℕ

-- One round: an exchange, the throttled message if it has failed, and the time to sleep until.
unfoldable pub round : ℕ → Loop → Turn → Loop × List Line
unfolding execute_if_allowed
round period l k =
    let (g, lines) = exchange_once l.gripper k.cycle in
    let (runs, throttle) : Bool × Throttle = elim k.cycle.answer [
      | none ↦ execute_if_allowed l.throttle k.throttled_at
      | some s ↦ (false, l.throttle)
    ] in
    (
      record {
        gripper = g;
        next_cycle = max (l.next_cycle + period) k.paced_at;
        throttle = throttle;
      },
      lines ++ (if runs then record { level = warn; message = cycle_failed } ∷ [] else []),
    )

-- The rounds of a thread that keeps running.
unfoldable pub rounds : ℕ → Loop → List Turn → Loop
rounds period l [] = l
rounds period l (k ∷ ks) = rounds period (round period l k).0 ks
