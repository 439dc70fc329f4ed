-- ===== src/Grippers/Activation/Returns.antt =====
-- The procedures of src/gripper.cpp do not run out of fuel.
use tactile_sensors.Base.{ℕ, Bool, Bool-cases, Option, arith, inl, inr, none, not, some, true, ◌+◌}
use tactile_sensors.Grippers.Blocks.{GripperCommand, GripperStatus, activated}
use tactile_sensors.Grippers.Blocks.Faults.{severity, gripper_fault}
use tactile_sensors.Grippers.Image.{
  StampedExchange, World, Blocked, waiting, returned, set_command, count_of,
}
use tactile_sensors.Grippers.Wait.{remaining, deadline_after, wait_for, wait_for_exchange_after}
use tactile_sensors.Grippers.Wait.Counts.{IsSteady}
use tactile_sensors.Grippers.Wait.Outcome.{Waited, wait_for_exchange_after-Waited}
use tactile_sensors.Grippers.Activation.{
  uncapped_deadline, after, with_command, wait_for_status, wait_operational, is_complete,
  is_in_progress, is_major, is_activation_handshake_allowed, wait_for_activation_complete,
  activate_command, deactivate_command, run_activation_handshake, rising_edge, judge,
  activate_gripper, recover, recover_from_fault,
}

-- A blocking call has an outcome: it still waits, or it has returned and the thread is steady.
unfoldable pub Runs : {A : Type 0} → Option (Blocked A) → Type 0
Runs none = ⊥
Runs (some (waiting u)) = Unit
Runs (some (returned a v)) = IsSteady v

Waited-Runs :
    (predicate : StampedExchange → Bool) (desired deadline : ℕ)
    (r : Option (Blocked (Option StampedExchange)))
    → Waited predicate desired deadline r
    → Runs r
unfolding Waited Runs
Waited-Runs predicate desired deadline none w = w
Waited-Runs predicate desired deadline (some (waiting u)) w = tt
Waited-Runs predicate desired deadline (some (returned none v)) w = w.1
Waited-Runs predicate desired deadline (some (returned (some e) v)) w = w.3

after-Runs :
    {A B : Type 0}
    → (r : Option (Blocked A)) (next : A → World → Option (Blocked B)) → Runs r
    → ((a : A) (v : World) → IsSteady v → Runs (next a v))
    → Runs (after r next)
unfolding Runs after
after-Runs none next h k = h
after-Runs (some (waiting u)) next h k = tt
after-Runs (some (returned a v)) next h k = k a v h

wait_for_status-Runs :
    (w : World) (predicate : GripperStatus → Bool) (deadline : ℕ)
    → IsSteady w
    → Runs (wait_for_status w predicate deadline)
unfolding wait_for_status wait_for
wait_for_status-Runs w predicate deadline s =
    Waited-Runs (λ e. predicate e.status) (count_of w.image.stamped + 1)
      (deadline_after w.now (remaining deadline w.now))
      (wait_for_exchange_after w (count_of w.image.stamped) (λ e. predicate e.status)
        (remaining deadline w.now))
      (wait_for_exchange_after-Waited w (count_of w.image.stamped) (λ e. predicate e.status)
        (remaining deadline w.now) s (omega (arith, s.counts)))

pub with_command-IsSteady :
    (w : World) (c : GripperCommand) → IsSteady w → IsSteady (with_command w c)
unfolding with_command set_command
with_command-IsSteady w c s = record { ticks = s.ticks; counts = s.counts }

completion-Runs :
    (w : World) (deadline : ℕ) → IsSteady w → Runs (wait_for_activation_complete w deadline)
unfolding wait_for_activation_complete Runs
completion-Runs w deadline s =
    after-Runs (wait_for_status w is_complete deadline) _
      (wait_for_status-Runs w is_complete deadline s) (λ r v steady. steady)

rising_edge-Runs :
    (before : GripperCommand) (deadline : ℕ) (r : Option StampedExchange) (v : World)
    → IsSteady v
    → Runs (rising_edge before deadline r v)
unfolding rising_edge Runs
rising_edge-Runs before deadline none v s = with_command-IsSteady v before s
rising_edge-Runs before deadline (some e) v s =
    completion-Runs (with_command v (activate_command before)) deadline
      (with_command-IsSteady v (activate_command before) s)

run_activation_handshake-Runs :
    (w : World) (deadline : ℕ) → IsSteady w → Runs (run_activation_handshake w deadline)
unfolding run_activation_handshake
run_activation_handshake-Runs w deadline s =
    after-Runs _ (rising_edge w.image.command deadline)
      (wait_for_status-Runs (with_command w (deactivate_command w.image.command))
        (λ s. not (activated s.gripper_status)) deadline
        (with_command-IsSteady w (deactivate_command w.image.command) s))
      (λ r v steady. rising_edge-Runs w.image.command deadline r v steady)

judge-Runs :
    (deadline timeout : ℕ) (r : Option StampedExchange) (v : World)
    → IsSteady v
    → Runs (judge deadline timeout r v)
unfolding judge Runs
judge-Runs deadline timeout none v s = s
judge-Runs deadline timeout (some e) v s =
    elim (Bool-cases (is_major (severity (gripper_fault e.status.fault_status)))) [
      | inl a ↦ rw (judge, a) s
      | inr a ↦ elim (Bool-cases (is_complete e.status)) [
        | inl b ↦ rw (judge, a, b) s
        | inr b ↦ elim (Bool-cases (is_in_progress e.status)) [
          | inl c ↦ rw (judge, a, b, c) (completion-Runs v deadline s)
          | inr c ↦ elim (Bool-cases (is_activation_handshake_allowed deadline timeout v.now)) [
            | inr d ↦ rw (judge, a, b, c, d) s
            | inl d ↦ rw (judge, a, b, c, d) (run_activation_handshake-Runs v deadline s)
          ]
        ]
      ]
    ]

recover-Runs :
    (deadline timeout : ℕ) (r : Option StampedExchange) (v : World)
    → IsSteady v
    → Runs (recover deadline timeout r v)
unfolding recover Runs
recover-Runs deadline timeout none v s = s
recover-Runs deadline timeout (some e) v s =
    elim (Bool-cases (is_activation_handshake_allowed deadline timeout v.now)) [
      | inr d ↦ rw (recover, d) s
      | inl d ↦ rw (recover, d) (run_activation_handshake-Runs v deadline s)
    ]

-- As long as fewer than 2^64 exchanges complete and the clock does not run backwards, none of the
-- waits of `activate` and `recoverFromFault` runs out of fuel: each procedure still waits, or it has
-- returned.
pub procedures-Runs :
    (w : World) (timeout : ℕ)
    → IsSteady w
    → Runs (activate_gripper w timeout) × Runs (recover_from_fault w timeout)
unfolding activate_gripper recover_from_fault wait_operational
procedures-Runs w timeout s =
    let deadline = uncapped_deadline w.now timeout in
    let first = wait_for_status-Runs w (λ s. true) deadline s in
    (
      after-Runs (wait_operational w deadline) (judge deadline timeout) first
          (λ r v steady. judge-Runs deadline timeout r v steady),
      after-Runs (wait_operational w deadline) (recover deadline timeout) first
          (λ r v steady. recover-Runs deadline timeout r v steady),
    )
