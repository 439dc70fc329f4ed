-- ===== src/Grippers/Activation/Complete.antt =====
-- A procedure of src/gripper.cpp that reports an active gripper has seen one.
use tactile_sensors.Base.{Bool-cases, Option, inl, inr, none, not, some, subst, true, ◌≡◌, ℕ}
use tactile_sensors.Grippers.Activation.{
  uncapped_deadline, ActivationResult, activate_command, activate_gripper, already_active,
  completion, deactivate_command, fault_latched, finished, is_activation_handshake_allowed,
  is_complete, is_in_progress, is_major, judge, recover, recover_from_fault, rising_edge,
  run_activation_handshake, timed_out, wait_for_activation_complete, wait_operational, with_command,
}
use tactile_sensors.Grippers.Activation.Ends.{
  Ends, Found, Found-IsSteady, after-Ends, wait_for_status-Ends,
}
use tactile_sensors.Grippers.Activation.Returns.{with_command-IsSteady}
use tactile_sensors.Grippers.Blocks.{GripperCommand, activated}
use tactile_sensors.Grippers.Blocks.Faults.{gripper_fault, severity}
use tactile_sensors.Grippers.Image.{StampedExchange, World, returned}
use tactile_sensors.Grippers.Wait.Counts.{IsSteady}

abbrev pub IsComplete : World → Type 0
IsComplete v = is_complete v.image.stamped.status ≡ true

-- What a result says of the newest status.
unfoldable pub Shows : ActivationResult → World → Type 0
Shows finished v = IsComplete v
Shows already_active v = IsComplete v
Shows fault_latched v =
    is_major (severity (gripper_fault v.image.stamped.status.fault_status)) ≡ true
Shows timed_out v = Unit

abbrev pub Shown : ActivationResult → World → Type 0
Shown r v = Shows r v × IsSteady v

completed-Shown :
    (o : Option StampedExchange) (v : World)
    → Found (λ e. is_complete e.status) o v
    → Ends Shown (some (returned (completion o) v))
unfolding completion Shows Ends
completed-Shown none v f = (tt, f)
completed-Shown (some e) v f = (subst (λ x. is_complete x.status ≡ true) f.1 f.0, f.2)

wait_for_activation_complete-Shown :
    (w : World) (deadline : ℕ) → IsSteady w → Ends Shown (wait_for_activation_complete w deadline)
unfolding wait_for_activation_complete
wait_for_activation_complete-Shown w deadline s =
    after-Ends (Found (λ e. is_complete e.status)) Shown _ _
      (wait_for_status-Ends w is_complete deadline s) (λ o v f. completed-Shown o v f)

rising_edge-Shown :
    (previous : GripperCommand) (deadline : ℕ) (o : Option StampedExchange) (v : World)
    → IsSteady v
    → Ends Shown (rising_edge previous deadline o v)
unfolding rising_edge Ends Shows
rising_edge-Shown previous deadline none v s = (tt, with_command-IsSteady v previous s)
rising_edge-Shown previous deadline (some e) v s =
    wait_for_activation_complete-Shown (with_command v (activate_command previous)) deadline
      (with_command-IsSteady v (activate_command previous) s)

run_activation_handshake-Shown :
    (w : World) (deadline : ℕ) → IsSteady w → Ends Shown (run_activation_handshake w deadline)
unfolding run_activation_handshake
run_activation_handshake-Shown w deadline s =
    after-Ends (Found (λ e. not (activated e.status.gripper_status))) Shown _ _
      (wait_for_status-Ends (with_command w (deactivate_command w.image.command))
        (λ s. not (activated s.gripper_status)) deadline
        (with_command-IsSteady w (deactivate_command w.image.command) s))
      (λ o v f.
        rising_edge-Shown w.image.command deadline o v
          (Found-IsSteady (λ e. not (activated e.status.gripper_status)) o v f))

judge-Shown :
    (deadline timeout : ℕ) (o : Option StampedExchange) (v : World)
    → Found (λ e. true) o v
    → Ends Shown (judge deadline timeout o v)
unfolding judge Ends Shows
judge-Shown deadline timeout none v f = (tt, f)
judge-Shown deadline timeout (some e) v f =
    elim (Bool-cases (is_major (severity (gripper_fault e.status.fault_status)))) [
      | inl a ↦
          rw (judge, a)
            (
              subst (λ x. is_major (severity (gripper_fault x.status.fault_status)) ≡ true) f.1 a,
              f.2,
            )
      | inr a ↦ elim (Bool-cases (is_complete e.status)) [
        | inl b ↦ rw (judge, a, b) (subst (λ x. is_complete x.status ≡ true) f.1 b, f.2)
        | inr b ↦ elim (Bool-cases (is_in_progress e.status)) [
          | inl c ↦ rw (judge, a, b, c) (wait_for_activation_complete-Shown v deadline f.2)
          | inr c ↦ elim (Bool-cases (is_activation_handshake_allowed deadline timeout v.now)) [
            | inr d ↦ rw (judge, a, b, c, d) (tt, f.2)
            | inl d ↦ rw (judge, a, b, c, d) (run_activation_handshake-Shown v deadline f.2)
          ]
        ]
      ]
    ]

recover-Shown :
    (deadline timeout : ℕ) (o : Option StampedExchange) (v : World)
    → Found (λ e. true) o v
    → Ends Shown (recover deadline timeout o v)
unfolding recover Ends Shows
recover-Shown deadline timeout none v f = (tt, f)
recover-Shown deadline timeout (some e) v f =
    elim (Bool-cases (is_activation_handshake_allowed deadline timeout v.now)) [
      | inr d ↦ rw (recover, d) (tt, f.2)
      | inl d ↦ rw (recover, d) (run_activation_handshake-Shown v deadline f.2)
    ]

-- As long as fewer than 2^64 exchanges complete and the clock does not run backwards, `activate` and
-- `recoverFromFault` do not run out of fuel, and they tell the truth: they report a gripper that has
-- become active, or was active already, only if the newest status says that its activation is complete,
-- and a latched fault only if that status has a major fault.
pub procedures-Shown :
    (w : World) (timeout : ℕ)
    → IsSteady w
    → Ends Shown (activate_gripper w timeout) × Ends Shown (recover_from_fault w timeout)
unfolding activate_gripper recover_from_fault wait_operational
procedures-Shown w timeout s =
    let deadline = uncapped_deadline w.now timeout in
    let first = wait_for_status-Ends w (λ s. true) deadline s in
    (
      after-Ends (Found (λ e. true)) Shown (wait_operational w deadline) (judge deadline timeout)
          first (λ o v f. judge-Shown deadline timeout o v f),
      after-Ends (Found (λ e. true)) Shown (wait_operational w deadline) (recover deadline timeout)
          first (λ o v f. recover-Shown deadline timeout o v f),
    )
