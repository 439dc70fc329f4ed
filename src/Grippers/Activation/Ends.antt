-- ===== src/Grippers/Activation/Ends.antt =====
-- How calls that block end: the waits of include/Robotiq/gripper/wait.hpp, and the calls after them.
use tactile_sensors.Base.{Bool, Option, arith, none, some, true, ◌≡◌, ℕ}
use tactile_sensors.Grippers.Activation.{after, wait_for_status}
use tactile_sensors.Grippers.Blocks.{GripperStatus}
use tactile_sensors.Grippers.Image.{Blocked, StampedExchange, World, count_of, returned, waiting}
use tactile_sensors.Grippers.Wait.{remaining, wait_for}
use tactile_sensors.Grippers.Wait.Counts.{IsSteady}
use tactile_sensors.Grippers.Wait.Outcome.{Waited, wait_for_exchange_after-Waited}

-- A blocking call that does not run out of fuel, and what holds once it has returned.
unfoldable pub Ends : {A : Type 0} → (A → World → Type 0) → Option (Blocked A) → Type 0
Ends P none = ⊥
Ends P (some (waiting u)) = Unit
Ends P (some (returned a v)) = P a v

pub after-Ends :
    {A B : Type 0}
    → (P : A → World → Type 0) (Q : B → World → Type 0) (r : Option (Blocked A))
      (next : A → World → Option (Blocked B))
    → Ends P r
    → ((a : A) (v : World) → P a v → Ends Q (next a v))
    → Ends Q (after r next)
unfolding Ends after
after-Ends P Q none next h k = h
after-Ends P Q (some (waiting u)) next h k = tt
after-Ends P Q (some (returned a v)) next h k = k a v h

-- What a wait hands back: the newest record, for which the predicate holds, or none.
abbrev pub Found : (StampedExchange → Bool) → Option StampedExchange → World → Type 0
Found predicate none v = IsSteady v
Found predicate (some e) v = (predicate e ≡ true) × (e ≡ v.image.stamped) × IsSteady v

pub Waited-Ends :
    (predicate : StampedExchange → Bool) (desired deadline : ℕ)
    (r : Option (Blocked (Option StampedExchange)))
    → Waited predicate desired deadline r
    → Ends (Found predicate) r
unfolding Waited Ends
Waited-Ends predicate desired deadline none h = h
Waited-Ends predicate desired deadline (some (waiting u)) h = tt
Waited-Ends predicate desired deadline (some (returned none v)) h = h.1
Waited-Ends predicate desired deadline (some (returned (some e) v)) h = (h.0, h.2, h.3)

pub wait_for-Ends :
    (w : World) (predicate : StampedExchange → Bool) (timeout : ℕ)
    → IsSteady w
    → Ends (Found predicate) (wait_for w predicate timeout)
unfolding wait_for
wait_for-Ends w predicate timeout s = Waited-Ends predicate _ _ _ (
    wait_for_exchange_after-Waited w (count_of w.image.stamped) predicate timeout s
      (omega (arith, s.counts)))

pub Found-IsSteady :
    (predicate : StampedExchange → Bool) (o : Option StampedExchange) (v : World)
    → Found predicate o v
    → IsSteady v
Found-IsSteady predicate none v h = h
Found-IsSteady predicate (some e) v h = h.2

pub wait_for_status-Ends :
    (w : World) (predicate : GripperStatus → Bool) (deadline : ℕ)
    → IsSteady w
    → Ends (Found (λ e. predicate e.status)) (wait_for_status w predicate deadline)
unfolding wait_for_status
wait_for_status-Ends w predicate deadline s =
    wait_for-Ends w (λ e. predicate e.status) (remaining deadline w.now) s
