-- ===== src/Grippers/Activation/Commands.antt =====
-- What the procedures of src/gripper.cpp leave commanded, if nobody else commands the gripper.
use tactile_sensors.Base.{
  ℕ, Bool-cases, inl, inr, refl, ◌∙◌, ◌≡◌, Option, none, some, subst, ◌⊎◌, true,
}
use tactile_sensors.Grippers.Blocks.Faults.{severity, gripper_fault}
use tactile_sensors.Grippers.Blocks.{GripperCommand}
use tactile_sensors.Grippers.Activation.{
  uncapped_deadline, ActivationResult, activate_command, already_active, fault_latched, is_complete,
  wait_for_activation_complete, wait_for_status, after, completion, finished, timed_out,
  activate_gripper, deactivate_command, is_activation_handshake_allowed, is_in_progress, is_major,
  judge, rising_edge, run_activation_handshake, wait_operational, with_command, recover,
  recover_from_fault,
}
use tactile_sensors.Grippers.Image.{set_command, World, Blocked, waiting, returned, StampedExchange}
use tactile_sensors.Grippers.Activation.Sole.{
  IsSole, Keeps, KeepsAfter, KeepsAll, wait_for_status-Keeps,
}

-- What the command may be once a procedure has returned: the command before it, or that command with
-- rACT set and rGTO clear; and the command before it if nothing was to be done.
unfoldable pub LeftCommand : GripperCommand → ActivationResult → GripperCommand → Type 0
unfolding activate_command
LeftCommand before already_active now = now ≡ before
LeftCommand before fault_latched now = now ≡ before
LeftCommand before finished now = (now ≡ before) ⊎ (now ≡ activate_command before)
LeftCommand before timed_out now = (now ≡ before) ⊎ (now ≡ activate_command before)

unfoldable pub LeavesCommand : GripperCommand → Option (Blocked ActivationResult) → Type 0
unfolding LeftCommand
LeavesCommand before none = Unit
LeavesCommand before (some (waiting u)) = Unit
LeavesCommand before (some (returned r v)) = LeftCommand before r v.image.command × IsSole v.wakes

after-LeavesCommand :
    {A : Type 0}
    → (before : GripperCommand) (w : World) (r : Option (Blocked A))
      (next : A → World → Option (Blocked ActivationResult))
    → KeepsAll w r
    → ((a : A) (v : World) → Keeps w v → LeavesCommand before (next a v))
    → LeavesCommand before (after r next)
unfolding LeavesCommand after KeepsAll KeepsAfter
after-LeavesCommand before w none next k h = tt
after-LeavesCommand before w (some (waiting u)) next k h = tt
after-LeavesCommand before w (some (returned a v)) next k h = h a v k

completion-LeavesCommand :
    (before : GripperCommand) (w : World) (deadline : ℕ)
    → IsSole w.wakes
    → (w.image.command ≡ before) ⊎ (w.image.command ≡ activate_command before)
    → LeavesCommand before (wait_for_activation_complete w deadline)
unfolding wait_for_activation_complete LeavesCommand LeftCommand Keeps completion
completion-LeavesCommand before w deadline h c =
    after-LeavesCommand before w (wait_for_status w is_complete deadline) _
      (wait_for_status-Keeps w is_complete deadline h) (λ r v k. completed r v k)
  where
    completed :
        (r : Option StampedExchange) (v : World)
        → Keeps w v
        → LeavesCommand before (some (returned (completion r) v))
    completed none v k = (elim c [ inl e ↦ inl (k.0 ∙ e) | inr e ↦ inr (k.0 ∙ e) ], k.1)
    completed (some e) v k = (elim c [ inl e ↦ inl (k.0 ∙ e) | inr e ↦ inr (k.0 ∙ e) ], k.1)

-- A command of the handshake, set on the way.
with_command-Keeps :
    {A : Type 0}
    → (before c : GripperCommand) (w : World) (r : Option (Blocked A))
      (next : A → World → Option (Blocked ActivationResult))
    → KeepsAll (with_command w c) r
    → ((a : A) (v : World) → IsSole v.wakes → LeavesCommand before (next a v))
    → LeavesCommand before (after r next)
unfolding Keeps
with_command-Keeps before c w r next k h =
    after-LeavesCommand before (with_command w c) r next k (λ a v kept. h a v kept.1)

with_command-IsSole :
    (w : World) (c : GripperCommand) → IsSole w.wakes → IsSole (with_command w c).wakes
unfolding with_command
with_command-IsSole w c h = h

rising_edge-LeavesCommand :
    (before : GripperCommand) (deadline : ℕ) (r : Option StampedExchange) (v : World)
    → IsSole v.wakes
    → LeavesCommand before (rising_edge before deadline r v)
unfolding rising_edge LeavesCommand LeftCommand with_command set_command
rising_edge-LeavesCommand before deadline none v h = (inl refl, h)
rising_edge-LeavesCommand before deadline (some e) v h =
    completion-LeavesCommand before (with_command v (activate_command before)) deadline
      (with_command-IsSole v (activate_command before) h) (inr refl)

run_activation_handshake-LeavesCommand :
    (w : World) (deadline : ℕ)
    → IsSole w.wakes
    → LeavesCommand w.image.command (run_activation_handshake w deadline)
unfolding run_activation_handshake
run_activation_handshake-LeavesCommand w deadline h =
    with_command-Keeps w.image.command (deactivate_command w.image.command) w _
      (rising_edge w.image.command deadline)
      (wait_for_status-Keeps (with_command w (deactivate_command w.image.command)) _ deadline
        (with_command-IsSole w (deactivate_command w.image.command) h))
      (λ r v sole. rising_edge-LeavesCommand w.image.command deadline r v sole)

LeavesCommand-of :
    (v w : World) (r : Option (Blocked ActivationResult))
    → Keeps w v
    → LeavesCommand v.image.command r
    → LeavesCommand w.image.command r
unfolding Keeps
LeavesCommand-of v w r k l = subst (λ c. LeavesCommand c r) k.0 l

judge-LeavesCommand :
    (w : World) (deadline timeout : ℕ) (r : Option StampedExchange) (v : World)
    → Keeps w v
    → LeavesCommand w.image.command (judge deadline timeout r v)
unfolding judge LeavesCommand LeftCommand Keeps
judge-LeavesCommand w deadline timeout none v k = (inl k.0, k.1)
judge-LeavesCommand w deadline timeout (some e) v k =
    elim (Bool-cases (is_major (severity (gripper_fault e.status.fault_status)))) [
      | inl a ↦ rw (judge, a) (k.0, k.1)
      | inr a ↦ elim (Bool-cases (is_complete e.status)) [
        | inl b ↦ rw (judge, a, b) (k.0, k.1)
        | inr b ↦ elim (Bool-cases (is_in_progress e.status)) [
          | inl c ↦
              rw (judge, a, b, c)
                (completion-LeavesCommand w.image.command v deadline k.1 (inl k.0))
          | inr c ↦ elim (Bool-cases (is_activation_handshake_allowed deadline timeout v.now)) [
            | inr d ↦ rw (judge, a, b, c, d) (inl k.0, k.1)
            | inl d ↦
                rw (judge, a, b, c, d)
                  (LeavesCommand-of v w (run_activation_handshake v deadline) k
                    (run_activation_handshake-LeavesCommand v deadline k.1))
          ]
        ]
      ]
    ]

activate_gripper-LeavesCommand :
    (w : World) (timeout : ℕ)
    → IsSole w.wakes
    → LeavesCommand w.image.command (activate_gripper w timeout)
unfolding activate_gripper wait_operational
activate_gripper-LeavesCommand w timeout h =
    let deadline = uncapped_deadline w.now timeout in
    after-LeavesCommand w.image.command w (wait_operational w deadline) (judge deadline timeout)
      (wait_for_status-Keeps w (λ s. true) deadline h)
      (λ r v k. judge-LeavesCommand w deadline timeout r v k)

recover-LeavesCommand :
    (w : World) (deadline timeout : ℕ) (r : Option StampedExchange) (v : World)
    → Keeps w v
    → LeavesCommand w.image.command (recover deadline timeout r v)
unfolding recover LeavesCommand LeftCommand Keeps
recover-LeavesCommand w deadline timeout none v k = (inl k.0, k.1)
recover-LeavesCommand w deadline timeout (some e) v k =
    elim (Bool-cases (is_activation_handshake_allowed deadline timeout v.now)) [
      | inr d ↦ rw (recover, d) (inl k.0, k.1)
      | inl d ↦
          rw (recover, d)
            (LeavesCommand-of v w (run_activation_handshake v deadline) k
              (run_activation_handshake-LeavesCommand v deadline k.1))
    ]

-- If no other thread sets a command, `activate` and `recoverFromFault` leave the command that they
-- found, or that command with rACT set and rGTO clear: never the one with rACT clear that the
-- handshake sets on its way, not even on a timeout. It is the command that they found if the result is
-- that the gripper was active already or that a major fault is latched.
pub procedures-LeavesCommand :
    (w : World) (timeout : ℕ)
    → IsSole w.wakes
    → LeavesCommand w.image.command (activate_gripper w timeout)
      × LeavesCommand w.image.command (recover_from_fault w timeout)
unfolding recover_from_fault wait_operational
procedures-LeavesCommand w timeout h =
    let deadline = uncapped_deadline w.now timeout in
    (
      activate_gripper-LeavesCommand w timeout h,
      after-LeavesCommand w.image.command w (wait_operational w deadline) (recover deadline timeout)
          (wait_for_status-Keeps w (λ s. true) deadline h)
          (λ r v k. recover-LeavesCommand w deadline timeout r v k),
    )
