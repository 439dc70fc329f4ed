-- ===== src/Grippers/Wait/Outcome.antt =====
-- How the waits of include/Robotiq/gripper/wait.hpp end, and that they do.
use tactile_sensors.Base.{
  ℕ, length, Bool-cases, List, Option, arith, inl, inr, none, refl, some, subst, true, ◌*◌, ◌+◌,
  ◌<◌, ◌^◌, ◌≡◌, ◌≤◌, ◌⊎◌, Bool, ap, suc, zero, ◌%◌, false, same,
}
use tactile_sensors.Grippers.Image.{
  Call, calls, set_command, StampedExchange, World, Blocked, waiting, returned, count_of,
}
use tactile_sensors.Grippers.Wait.{
  set_command_and_wait_for_exchange, deadline_after, longest, nanoseconds, remaining,
  wait_for_exchange_count, wait_for_exchange_after, wait_from,
}
use tactile_sensors.Grippers.Wait.Counting.{Leaves}
use tactile_sensors.Grippers.Blocks.{GripperCommand, same_command}
use tactile_sensors.Grippers.Wait.Counts.{
  IsSteady, overtaken, overtaken-IsSteady, Leaves-IsSteady, Counted, IsOver, deadline_after-soon,
  wait_for_exchange_count-Counted,
}

-- What a loop of waits leads to: it has not run out of fuel, and an exchange that it hands back is
-- the last one, is new enough and is one for which the predicate holds; it hands back none only once
-- the deadline is over or the image is closed. The thread is still steady.
unfoldable pub Waited :
    (StampedExchange → Bool) → ℕ → ℕ → Option (Blocked (Option StampedExchange)) → Type 0
unfolding IsOver
Waited predicate desired deadline none = ⊥
Waited predicate desired deadline (some (waiting u)) = Unit
Waited predicate desired deadline (some (returned none v)) = IsOver deadline v × IsSteady v
Waited predicate desired deadline (some (returned (some e) v)) =
    (predicate e ≡ true) × (desired ≤ count_of e) × (e ≡ v.image.stamped) × IsSteady v

-- The fuel covers the waits to come: one round more if the count desired is not there yet, or two.
Enough : ℕ → ℕ → World → Type 0
Enough fuel desired w =
    (length w.wakes + 2 ≤ fuel)
    ⊎ ((count_of w.image.stamped < desired) × (length w.wakes + 1 ≤ fuel))

no_fuel : (desired : ℕ) (w : World) → Enough 0 desired w → ⊥
unfolding Enough
no_fuel desired w (inl h) = absurd (omega arith)
no_fuel desired w (inr h) = absurd (omega arith)

-- The fuel that is left after a round that brought an exchange.
Enough-left :
    (fuel desired : ℕ) (w v : World) (e : StampedExchange)
    → Enough (suc fuel) desired w
    → Leaves w v
    → e ≡ v.image.stamped
    → (desired ≤ count_of w.image.stamped) ⊎ (length v.wakes < length w.wakes)
    → Enough fuel (count_of e + 1) v
unfolding Enough
Enough-left fuel desired w v e (inl h) l same progress =
    inr (omega (arith, ap count_of same), omega (arith, l.waits))
Enough-left fuel desired w v e (inr h) l same (inl there) = absurd (omega arith)
Enough-left fuel desired w v e (inr h) l same (inr woken) =
    inr (omega (arith, ap count_of same), omega arith)

pub Option-Blocked_cases :
    {A : Type 0}
    → (r : Blocked (Option A))
    → ((u : World) × (r ≡ waiting u))
      ⊎ (((v : World) × (r ≡ returned none v))
          ⊎ ((a : A) × (v : World) × (r ≡ returned (some a) v)))
Option-Blocked_cases (waiting u) = inl (u, refl)
Option-Blocked_cases (returned none v) = inr (inl (v, refl))
Option-Blocked_cases (returned (some a) v) = inr (inr (a, v, refl))

module _ (predicate : StampedExchange → Bool) (deadline fuel desired : ℕ) (w : World) where
  abbrev pub one_round : Blocked (Option StampedExchange)
  one_round = wait_for_exchange_count w desired (remaining deadline w.now)

  pub wait_from-waiting :
      (u : World)
      → one_round ≡ waiting u
      → wait_from predicate deadline (suc fuel) desired w ≡ some (waiting u)
  unfolding wait_from
  wait_from-waiting u q = rw (wait_from, q) refl

  pub wait_from-none :
      (v : World)
      → one_round ≡ returned none v
      → wait_from predicate deadline (suc fuel) desired w ≡ some (returned none v)
  unfolding wait_from
  wait_from-none v q = rw (wait_from, q) refl

  pub wait_from-found :
      (e : StampedExchange) (v : World)
      → one_round ≡ returned (some e) v
      → predicate e ≡ true
      → wait_from predicate deadline (suc fuel) desired w ≡ some (returned (some e) v)
  unfolding wait_from
  wait_from-found e v q holds = rw (wait_from, q, holds) refl

  pub wait_from-again :
      (e : StampedExchange) (v : World)
      → one_round ≡ returned (some e) v
      → predicate e ≡ false
      → wait_from predicate deadline (suc fuel) desired w
        ≡ wait_from predicate deadline fuel ((count_of e + 1) % 2 ^ 64) v
  unfolding wait_from
  wait_from-again e v q fails = rw (wait_from, q, fails) refl

wait_from-Waited :
    (predicate : StampedExchange → Bool) (deadline fuel low desired : ℕ) (w : World)
    → 0 < desired
    → low ≤ desired
    → IsSteady w
    → deadline ≤ w.now + longest * nanoseconds
    → Enough fuel desired w
    → Waited predicate low deadline (wait_from predicate deadline fuel desired w)
unfolding Counted Waited
wait_from-Waited predicate deadline zero low desired w pos below s soon enough =
    absurd (no_fuel desired w enough)
wait_from-Waited predicate deadline (suc fuel) low desired w pos below s soon enough =
    let r = wait_for_exchange_count w desired (remaining deadline w.now) in
    let counted = wait_for_exchange_count-Counted w desired deadline pos s soon in
    elim (Option-Blocked_cases r) [
      | inl (u, q) ↦ rw (wait_from-waiting predicate deadline fuel desired w u q) tt
      | inr (inl (v, q)) ↦
          (let c = subst (Counted w desired deadline) q counted in
            rw (wait_from-none predicate deadline fuel desired w v q)
              (c.1, Leaves-IsSteady w v c.0 s))
      | inr (inr (e, v, q)) ↦
          (let c = subst (Counted w desired deadline) q counted in
            elim (Bool-cases (predicate e)) [
              | inl holds ↦
                  rw (wait_from-found predicate deadline fuel desired w e v q holds)
                    (holds, omega arith, c.1, Leaves-IsSteady w v c.0 s)
              | inr fails ↦
                  (let next : (count_of e + 1) % 2 ^ 64 ≡ count_of e + 1 =
                      omega (arith, ap count_of c.1, c.0.counts, s.counts) in
                    rw (wait_from-again predicate deadline fuel desired w e v q fails, next)
                      (wait_from-Waited predicate deadline fuel low (count_of e + 1) v (omega arith)
                        (omega arith) (Leaves-IsSteady w v c.0 s) (omega (arith, c.0.later, soon))
                        (Enough-left fuel desired w v e enough c.0 c.1 c.3)))
            ])
    ]

-- Whatever other threads do meanwhile, as long as fewer than 2^64 exchanges complete and the clock
-- does not run backwards, the fuel of a wait for an exchange after a given count is enough. The wait
-- hands back the newest exchange, one after that count for which the predicate holds, or none, and
-- that only once its deadline is over or the image is closed; or else it still waits.
pub wait_for_exchange_after-Waited :
    (w : World) (after_count : ℕ) (predicate : StampedExchange → Bool) (timeout : ℕ)
    → IsSteady w
    → after_count + 1 < 2 ^ 64
    → Waited predicate
        (after_count + 1)
        (deadline_after w.now timeout)
        (wait_for_exchange_after w after_count predicate timeout)
unfolding wait_for_exchange_after Enough
wait_for_exchange_after-Waited w after_count predicate timeout s h =
    let next : (after_count + 1) % 2 ^ 64 ≡ after_count + 1 = omega arith in
    rw next (
      wait_from-Waited predicate (deadline_after w.now timeout) (length w.wakes + 2)
        (after_count + 1) (after_count + 1) w (omega arith) (omega arith) s
        (deadline_after-soon w.now timeout) (inl (omega arith)))

-- As long as fewer than 2^64 exchanges complete and the clock does not run backwards, the fuel of
-- `setCommandAndWaitForExchange` is enough, whatever other threads do before it has set the command. It hands back the newest exchange, one that completed
-- after the call and carried the command, or none, and that only once its deadline is over or the
-- image is closed; or else it still waits.
pub set_command_and_wait_for_exchange-Waited :
    (w : World) (between : List Call) (c : GripperCommand) (timeout : ℕ)
    → IsSteady (overtaken w between)
    → Waited
        (λ e. same_command e.command c)
        (count_of w.image.stamped + 1)
        (deadline_after w.now timeout)
        (set_command_and_wait_for_exchange w between c timeout)
unfolding set_command_and_wait_for_exchange set_command
set_command_and_wait_for_exchange-Waited w between c timeout s =
    let ready = overtaken-IsSteady w between s in
    wait_for_exchange_after-Waited (record w { image = set_command (calls w.image between) c })
      (count_of w.image.stamped) (λ e. same_command e.command c) timeout
      (record { ticks = ready.ticks; counts = ready.counts }) (omega (arith, s.counts))
