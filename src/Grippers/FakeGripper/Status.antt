-- ===== src/Grippers/FakeGripper/Status.antt =====
-- The status that the fake device of src/fake/register_model.cpp builds up.
use tactile_sensors.Base.{◌<◌, ◌≡◌, Bool, arith, false, if◌then◌else◌, refl, true, ℕ, ◌&&◌}
use tactile_sensors.Grippers.Blocks.Writers.{flags}
use tactile_sensors.Grippers.FakeGripper.{
  next_status, RegisterModel, reported_current, status, next_done,
}
use tactile_sensors.Grippers.Blocks.{GripperStatus, at_requested_position, complete, moving, reset}

-- The documented bytes of a status block are bytes.
pub record IsStatus (s : GripperStatus) : Type 0 where
  pub flags_byte : s.gripper_status < 256
  pub reserved1_byte : s.reserved1 < 256
  pub fault_byte : s.fault_status < 256
  pub echo_byte : s.position_request_echo < 256
  pub position_byte : s.position < 256
  pub current_byte : s.current < 256

pub flags-next_status :
    (activate_bit done go_to_bit : Bool) (fault position_request : ℕ)
    → flags (next_status activate_bit done go_to_bit fault position_request).gripper_status
      ≡ record {
        gact = activate_bit;
        ggto = activate_bit && done && go_to_bit;
        gsta = if activate_bit && done then complete else reset;
        gobj = if activate_bit && done && go_to_bit then at_requested_position else moving;
      }
unfolding next_status flags
flags-next_status true true true f p = refl
flags-next_status true true false f p = refl
flags-next_status true false true f p = refl
flags-next_status true false false f p = refl
flags-next_status false _ _ f p = refl

pub next_status-IsStatus :
    (activate_bit done go_to_bit : Bool) (fault position_request : ℕ)
    → fault < 256
    → position_request < 256
    → IsStatus (next_status activate_bit done go_to_bit fault position_request)
unfolding next_status
next_status-IsStatus true true true f p h k = omega arith
next_status-IsStatus true true false f p h k = omega arith
next_status-IsStatus true false true f p h k = omega arith
next_status-IsStatus true false false f p h k = omega arith
next_status-IsStatus false _ _ f p h k = omega arith

pub next_status-fields :
    (activate_bit done go_to_bit : Bool) (fault position_request : ℕ)
    → let s = next_status activate_bit done go_to_bit fault position_request in
      (s.fault_status ≡ fault)
      × (s.position_request_echo ≡ position_request)
      × (s.position ≡ position_request)
      × (s.current ≡ reported_current)
unfolding next_status
next_status-fields true true true f p = (refl, refl, refl, refl)
next_status-fields true true false f p = (refl, refl, refl, refl)
next_status-fields true false true f p = (refl, refl, refl, refl)
next_status-fields true false false f p = (refl, refl, refl, refl)
next_status-fields false _ _ f p = (refl, refl, refl, refl)

pub next_done-tracked :
    (previous activate_bit : Bool) → next_done previous previous activate_bit ≡ activate_bit
unfolding next_done
next_done-tracked true true = refl
next_done-tracked true false = refl
next_done-tracked false true = refl
next_done-tracked false false = refl

pub stored_fault-lt :
    (m : RegisterModel) (on : Bool) → (if on then (status m).fault_status else 0) < 256
unfolding status
stored_fault-lt m true = omega arith
stored_fault-lt m false = omega arith
