-- ===== src/Grippers/Activation/Answers.antt =====
-- What the fake device of src/fake/register_model.cpp answers to the commands of the activation.
use tactile_sensors.Base.{ap, false, if◌then◌else◌, refl, true, ◌<◌, ◌≡◌}
use tactile_sensors.Grippers.Activation.{
  activate_command, deactivate_command, is_complete, is_in_progress, is_major,
}
use tactile_sensors.Grippers.Blocks.{
  GripperCommand, GripperStatus, activate, activated, activation_state, complete, get, go_to,
  position, reset, set_to,
}
use tactile_sensors.Grippers.Blocks.Actions.{get-set_to}
use tactile_sensors.Grippers.Blocks.Faults.{gripper_fault, severity}
use tactile_sensors.Grippers.Blocks.Writers.{Flags, flags}
use tactile_sensors.Grippers.FakeGripper.{RegisterModel}
use tactile_sensors.Grippers.FakeGripper.Protocol.{Answers, IsCommand}

-- The commands of the handshake, as the device sees them.
pub activate_command-action :
    (c : GripperCommand)
    → IsCommand c
    → (get (activate_command c).action activate ≡ true) × ((activate_command c).action < 256)
unfolding activate_command position
activate_command-action c h =
    get-set_to (set_to c.action go_to false) activate activate true
      (get-set_to c.action go_to go_to false h.action_byte).1

pub deactivate_command-action :
    (c : GripperCommand)
    → IsCommand c
    → (get (deactivate_command c).action activate ≡ false) × ((deactivate_command c).action < 256)
unfolding deactivate_command position
deactivate_command-action c h =
    get-set_to (activate_command c).action activate activate false (activate_command-action c h).1

pub activate_command-IsCommand : (c : GripperCommand) → IsCommand c → IsCommand (activate_command c)
unfolding activate_command
activate_command-IsCommand c h = record {
  action_byte = (activate_command-action c h).1;
  reserved1_byte = h.reserved1_byte;
  reserved2_byte = h.reserved2_byte;
  position_byte = h.position_byte;
  speed_byte = h.speed_byte;
  force_byte = h.force_byte;
}

pub deactivate_command-IsCommand :
    (c : GripperCommand) → IsCommand c → IsCommand (deactivate_command c)
unfolding deactivate_command
deactivate_command-IsCommand c h = record {
  action_byte = (deactivate_command-action c h).1;
  reserved1_byte = h.reserved1_byte;
  reserved2_byte = h.reserved2_byte;
  position_byte = h.position_byte;
  speed_byte = h.speed_byte;
  force_byte = h.force_byte;
}

-- What the answer to a command says of the activation.
module _ (m : RegisterModel) (c : GripperCommand) (s : GripperStatus) (a : Answers m c s) where
  pub answered_bit : activated s.gripper_status ≡ get c.action activate
  unfolding flags
  answered_bit = ap (λ (f : Flags). f.gact) a.flags_byte

  answered_state :
      activation_state s.gripper_status ≡ (if get c.action activate then complete else reset)
  unfolding flags
  answered_state = ap (λ (f : Flags). f.gsta) a.flags_byte

  pub answered_complete : get c.action activate ≡ true → is_complete s ≡ true
  answered_complete h = rw (answered_state, h) refl

  module _ (clear : get c.action activate ≡ false) where
    pub not_complete : is_complete s ≡ false
    not_complete = rw (answered_state, clear) refl

    pub not_in_progress : is_in_progress s ≡ false
    not_in_progress = rw (answered_state, clear) refl

    pub not_major : is_major (severity (gripper_fault s.fault_status)) ≡ false
    unfolding is_major severity gripper_fault
    not_major = rw (a.fault, clear) refl
