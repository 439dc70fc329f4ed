-- ===== src/Grippers/Blocks/Writers.antt =====
-- Writing the packed status bytes: src/fake/status_writer.cpp.
use tactile_sensors.Base.{
  ℕ, Bool, arith, bit_and, bit_or, if◌then◌else◌, same, true, ◌%◌, ◌&&◌, ◌*◌, ◌-◌, ◌==◌, ◌^◌, ◌≡◌,
  &&-eq_true, false, ltb, ltb→lt, refl, ◌<◌,
}
use tactile_sensors.Base.Bits.{every_below, every_below_sound}
use tactile_sensors.Grippers.Blocks.{
  GripperStatus, ActivationState, ObjectDetection, activated, activation_state, detection_code,
  go_to_enabled, mask, object_detection, state_code, at_requested_position, complete,
  detected_while_closing, detected_while_opening, in_progress, moving, reserved, reset,
}

unfoldable pub with_field : ℕ → ℕ → ℕ → ℕ
with_field bits mask value = bit_or (bit_and bits (255 - mask)) (bit_and value mask) % 256

unfoldable pub with_flag : ℕ → ℕ → Bool → ℕ
with_flag bits mask on = if on then bit_or bits mask % 256 else bit_and bits (255 - mask) % 256

unfoldable pub set_activated : GripperStatus → Bool → GripperStatus
unfolding with_flag
set_activated s on = record s { gripper_status = with_flag s.gripper_status 0x01 on }

unfoldable pub set_go_to_enabled : GripperStatus → Bool → GripperStatus
unfolding with_flag
set_go_to_enabled s on = record s { gripper_status = with_flag s.gripper_status 0x08 on }

unfoldable pub set_activation_state : GripperStatus → ActivationState → GripperStatus
unfolding with_field
set_activation_state s state = record s {
  gripper_status = with_field s.gripper_status 0x30 (state_code state * 2 ^ 4 % 256);
}

unfoldable pub set_object_detection : GripperStatus → ObjectDetection → GripperStatus
unfolding with_field
set_object_detection s d = record s {
  gripper_status = with_field s.gripper_status 0xC0 (detection_code d * 2 ^ 6 % 256);
}

unfoldable pub set_status_flags_byte : GripperStatus → ℕ → GripperStatus
set_status_flags_byte s byte = record s { gripper_status = byte }

unfoldable pub set_fault_status_byte : GripperStatus → ℕ → GripperStatus
set_fault_status_byte s byte = record s { fault_status = byte }

-- What the four readers of the flags byte say.
pub record Flags : Type 0 where
  pub gact : Bool
  pub ggto : Bool
  pub gsta : ActivationState
  pub gobj : ObjectDetection

unfoldable pub flags : ℕ → Flags
unfolding activated go_to_enabled activation_state object_detection
flags bits = record {
  gact = activated bits;
  ggto = go_to_enabled bits;
  gsta = activation_state bits;
  gobj = object_detection bits;
}

same_flags : Flags → Flags → Bool
same_flags f g =
    same f.gact g.gact
    && same f.ggto g.ggto
    && (state_code f.gsta == state_code g.gsta)
    && (detection_code f.gobj == detection_code g.gobj)

state_code-injective : (a b : ActivationState) → state_code a ≡ state_code b → a ≡ b
state_code-injective a b h = ground arith

detection_code-injective : (a b : ObjectDetection) → detection_code a ≡ detection_code b → a ≡ b
detection_code-injective a b h = ground arith

same_flags→eq : (f g : Flags) → same_flags f g ≡ true → f ≡ g
unfolding same_flags
same_flags→eq f g h = ground arith

-- One write of each field, at one value of the byte: the readers see the new value of that field
-- and the old values of the three others, and the result is a byte.
abbrev writes : ℕ → ℕ → Flags → Bool
writes v' v expected = same_flags (flags v') expected && ltb v' 256

abbrev writes_flags : Bool → ℕ → Bool
writes_flags on v =
    writes (with_flag v 0x01 on) v (record (flags v) { gact = on })
    && writes (with_flag v 0x08 on) v (record (flags v) { ggto = on })

abbrev writes_state : ActivationState → ℕ → Bool
writes_state a v =
    writes (with_field v 0x30 (state_code a * 2 ^ 4 % 256)) v (record (flags v) { gsta = a })

abbrev writes_detection : ObjectDetection → ℕ → Bool
writes_detection d v =
    writes (with_field v 0xC0 (detection_code d * 2 ^ 6 % 256)) v (record (flags v) { gobj = d })

flags_table : (on : Bool) → every_below 256 (writes_flags on) ≡ true
unfolding every_below flags same_flags with_flag
flags_table true = refl
flags_table false = refl

state_table : (a : ActivationState) → every_below 256 (writes_state a) ≡ true
unfolding every_below flags same_flags with_field
state_table reset = refl
state_table in_progress = refl
state_table reserved = refl
state_table complete = refl

detection_table : (d : ObjectDetection) → every_below 256 (writes_detection d) ≡ true
unfolding every_below flags same_flags with_field
detection_table moving = refl
detection_table detected_while_opening = refl
detection_table detected_while_closing = refl
detection_table at_requested_position = refl

writes→eq :
    (v' v : ℕ) (expected : Flags) → writes v' v expected ≡ true → (flags v' ≡ expected) × (v' < 256)
writes→eq v' v expected h =
    let parts = &&-eq_true _ _ h in (same_flags→eq _ _ parts.0, ltb→lt _ _ parts.1)

-- Each writer of the flags byte sets the field that it names and leaves what the other three readers
-- see as it was.
pub flags-set :
    (s : GripperStatus) (on : Bool) (a : ActivationState) (d : ObjectDetection)
    → s.gripper_status < 256
    → (flags (set_activated s on).gripper_status ≡ record (flags s.gripper_status) { gact = on })
      × (flags (set_go_to_enabled s on).gripper_status
          ≡ record (flags s.gripper_status) { ggto = on })
      × (flags (set_activation_state s a).gripper_status
          ≡ record (flags s.gripper_status) { gsta = a })
      × (flags (set_object_detection s d).gripper_status
          ≡ record (flags s.gripper_status) { gobj = d })
unfolding set_activated set_go_to_enabled set_activation_state set_object_detection
flags-set s on a d h =
    let v = s.gripper_status in
    let on_v = &&-eq_true _ _ (every_below_sound 256 (writes_flags on) v (flags_table on) h) in
    let a_v = every_below_sound 256 (writes_state a) v (state_table a) h in
    let d_v = every_below_sound 256 (writes_detection d) v (detection_table d) h in
    (
      (writes→eq _ v _ on_v.0).0,
      (writes→eq _ v _ on_v.1).0,
      (writes→eq _ v _ a_v).0,
      (writes→eq _ v _ d_v).0,
    )
