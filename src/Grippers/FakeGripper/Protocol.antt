-- ===== src/Grippers/FakeGripper/Protocol.antt =====
-- What the fake device reports, given what it was commanded: src/fake/register_model.cpp seen
-- through the registers that the driver writes and reads.
use tactile_sensors.Base.{
  [], ◌<◌, ◌∷◌, ◌≡◌, Bool, List, arith, false, if◌then◌else◌, refl, true, ℕ, ◌&&◌, Bool-cases, inl,
  inr, ap, ◌∙◌,
}
use tactile_sensors.Grippers.Blocks.Writers.{flags, Flags}
use tactile_sensors.Grippers.Blocks.Packing.{
  bytes_from_registers, command_address, command_register_count, join_bytes, registers_from_bytes,
  split_bytes, status_address, status_register_count,
}
use tactile_sensors.Grippers.FakeGripper.{
  next_status, RegisterModel, copy_n, set_status, command, read, write, process_command,
  contains_range, reported_current, status, next_done,
}
use tactile_sensors.Grippers.FakeGripper.Status.{
  IsStatus, flags-next_status, next_done-tracked, next_status-IsStatus, next_status-fields,
  stored_fault-lt,
}
use tactile_sensors.Grippers.Blocks.{
  GripperCommand, GripperStatus, command_data, empty_status, status_data, status_of_data,
  at_requested_position, complete, moving, reset, activate, get, go_to,
}

-- The device with the command's registers copied in, before it acts on them.
abbrev pub loaded : RegisterModel → GripperCommand → RegisterModel
loaded m c = record m {
  registers =
      copy_n (registers_from_bytes command_register_count (command_data c)) command_register_count
        command_address m.registers;
}

-- The driver's write of the documented part of a command block.
abbrev pub sent : RegisterModel → GripperCommand → RegisterModel
sent m c =
    (write m command_address command_register_count
      (registers_from_bytes command_register_count (command_data c))).0

-- The driver's read of the documented part of the status block.
abbrev pub reply : RegisterModel → GripperStatus
reply m = status_of_data (
    bytes_from_registers (read m status_address status_register_count (0 ∷ 0 ∷ 0 ∷ [])).0
      (status_data empty_status))

-- The documented bytes of a command block are bytes.
pub record IsCommand (c : GripperCommand) : Type 0 where
  pub action_byte : c.action < 256
  pub reserved1_byte : c.reserved1 < 256
  pub reserved2_byte : c.reserved2 < 256
  pub position_byte : c.position_request < 256
  pub speed_byte : c.speed < 256
  pub force_byte : c.force < 256

-- The device decodes the documented fields of the command that was written.
command-loaded :
    (m : RegisterModel) (c : GripperCommand)
    → IsCommand c
    → ((command (loaded m c)).action ≡ c.action)
      × ((command (loaded m c)).position_request ≡ c.position_request)
      × ((command (loaded m c)).speed ≡ c.speed)
      × ((command (loaded m c)).force ≡ c.force)
unfolding command copy_n registers_from_bytes
command-loaded m c v =
    let a = join_bytes c.action c.reserved1 v.action_byte v.reserved1_byte in
    let b = join_bytes c.reserved2 c.position_request v.reserved2_byte v.position_byte in
    let d = join_bytes c.speed c.force v.speed_byte v.force_byte in
    (
      rw a (split_bytes c.action c.reserved1 v.action_byte v.reserved1_byte).0,
      rw b (split_bytes c.reserved2 c.position_request v.reserved2_byte v.position_byte).1,
      rw d (split_bytes c.speed c.force v.speed_byte v.force_byte).0,
      rw d (split_bytes c.speed c.force v.speed_byte v.force_byte).1,
    )

-- The driver reads back the documented fields of the status that the device stores.
reply-set_status :
    (m : RegisterModel) (s : GripperStatus)
    → IsStatus s
    → ((reply (set_status m s)).gripper_status ≡ s.gripper_status)
      × ((reply (set_status m s)).fault_status ≡ s.fault_status)
      × ((reply (set_status m s)).position_request_echo ≡ s.position_request_echo)
      × ((reply (set_status m s)).position ≡ s.position)
      × ((reply (set_status m s)).current ≡ s.current)
unfolding set_status read status_of_data bytes_from_registers
reply-set_status m s v =
    let a = join_bytes s.gripper_status s.reserved1 v.flags_byte v.reserved1_byte in
    let b = join_bytes s.fault_status s.position_request_echo v.fault_byte v.echo_byte in
    let d = join_bytes s.position s.current v.position_byte v.current_byte in
    (
      rw a (split_bytes s.gripper_status s.reserved1 v.flags_byte v.reserved1_byte).0,
      rw b (split_bytes s.fault_status s.position_request_echo v.fault_byte v.echo_byte).0,
      rw b (split_bytes s.fault_status s.position_request_echo v.fault_byte v.echo_byte).1,
      rw d (split_bytes s.position s.current v.position_byte v.current_byte).0,
      rw d (split_bytes s.position s.current v.position_byte v.current_byte).1,
    )

-- The edge tracking: the sweep is done exactly while rACT was last seen set.
pub record IsTracked (m : RegisterModel) : Type 0 where
  pub tracked : m.activation_done ≡ m.previous_activate_bit

process_command-IsTracked :
    (m : RegisterModel) (c : GripperCommand) (s : GripperStatus)
    → m.activation_done ≡ m.previous_activate_bit
    → (process_command m c s).0.activation_done ≡ (process_command m c s).0.previous_activate_bit
unfolding process_command next_done
process_command-IsTracked m c s v = ground arith

-- No write through the transport, covered or refused, breaks the edge tracking.
pub write-IsTracked :
    (m : RegisterModel) (address quantity : ℕ) (values : List ℕ)
    → IsTracked m
    → IsTracked (write m address quantity values).0
unfolding write set_status
write-IsTracked m address quantity values v = elim (Bool-cases (contains_range address quantity)) [
  | inl covered ↦
      let m1 : RegisterModel = record m {
        registers = copy_n values quantity address m.registers;
      } in
      rw (covered, write)
        (record { tracked = process_command-IsTracked m1 (command m1) (status m1) v.tracked })
  | inr refused ↦ rw (refused, write) v
]

-- What the status block says of a command, once the device has acted on it.
pub record Answers (m : RegisterModel) (c : GripperCommand) (s : GripperStatus) : Type 0 where
  pub flags_byte : flags s.gripper_status ≡ record {
    gact = get c.action activate;
    ggto = get c.action activate && get c.action go_to;
    gsta = if get c.action activate then complete else reset;
    gobj = if get c.action activate && get c.action go_to then at_requested_position else moving;
  }
  pub fault : s.fault_status ≡ (if get c.action activate then (status m).fault_status else 0)
  pub echo : s.position_request_echo ≡ c.position_request
  pub arrived : s.position ≡ c.position_request
  pub constant_current : s.current ≡ reported_current

-- The status that a device with its edges tracked makes of a command.
process_command-status :
    (m : RegisterModel) (c : GripperCommand) (s : GripperStatus)
    → IsTracked m
    → (process_command m c s).1
      ≡ next_status
          (get c.action activate)
          (get c.action activate)
          (get c.action go_to)
          (if get c.action activate then s.fault_status else 0)
          c.position_request
unfolding process_command
process_command-status m c s t =
    rw (t.tracked, next_done-tracked m.previous_activate_bit (get c.action activate)) refl

-- The status block is not part of what a command writes.
status-loaded : (m : RegisterModel) (c : GripperCommand) → status (loaded m c) ≡ status m
unfolding status copy_n
status-loaded m c = refl

-- The status that the written command leads to, in the terms of the command.
abbrev answer : RegisterModel → GripperCommand → GripperStatus
answer m c =
    next_status (get c.action activate) (get c.action activate) (get c.action go_to)
      (if get c.action activate then (status m).fault_status else 0) c.position_request

process_command-answer :
    (m : RegisterModel) (c : GripperCommand)
    → IsTracked m
    → IsCommand c
    → (process_command (loaded m c) (command (loaded m c)) (status (loaded m c))).1 ≡ answer m c
process_command-answer m c t v =
    let fields = command-loaded m c v in
    process_command-status (loaded m c) (command (loaded m c)) (status (loaded m c))
      (record { tracked = t.tracked })
    ∙ rw (fields.0, fields.1, status-loaded m c)

flags-answer :
    (m : RegisterModel) (c : GripperCommand)
    → flags (answer m c).gripper_status ≡ record {
      gact = get c.action activate;
      ggto = get c.action activate && get c.action go_to;
      gsta = if get c.action activate then complete else reset;
      gobj = if get c.action activate && get c.action go_to then at_requested_position else moving;
    }
flags-answer m c =
    flags-next_status (get c.action activate) (get c.action activate) (get c.action go_to) _ _
    ∙ again (get c.action activate) (get c.action go_to)
  where
    again :
        (a g : Bool)
        → ◌≡◌ {A = Flags}
            (record {
              gact = a;
              ggto = a && a && g;
              gsta = if a && a then complete else reset;
              gobj = if a && a && g then at_requested_position else moving;
            })
            (record {
              gact = a;
              ggto = a && g;
              gsta = if a then complete else reset;
              gobj = if a && g then at_requested_position else moving;
            })
    again true g = refl
    again false g = refl

-- The status that the driver reads after it has written a command answers that command: rACT, rGTO
-- and the position are echoed, activation is complete exactly when rACT is set, the fingers are at
-- the requested position exactly when both are set, and a fault survives until rACT is cleared.
pub reply-sent :
    (m : RegisterModel) (c : GripperCommand)
    → IsTracked m
    → IsCommand c
    → Answers m c (reply (sent m c))
unfolding write contains_range
reply-sent m c t v =
    let p = process_command (loaded m c) (command (loaded m c)) (status (loaded m c)) in
    let e : p.1 ≡ answer m c = process_command-answer m c t v in
    let valid : IsStatus (answer m c) =
      next_status-IsStatus (get c.action activate) (get c.action activate) (get c.action go_to) _ _
        (stored_fault-lt m (get c.action activate)) v.position_byte in
    let fields =
      next_status-fields (get c.action activate) (get c.action activate) (get c.action go_to)
        (if get c.action activate then (status m).fault_status else 0) c.position_request in
    rw e (
      let stored = reply-set_status p.0 (answer m c) valid in
      record {
        flags_byte = ap flags stored.0 ∙ flags-answer m c;
        fault = stored.1 ∙ fields.0;
        echo = stored.2 ∙ fields.1;
        arrived = stored.3 ∙ fields.2;
        constant_current = stored.4 ∙ fields.3;
      })

-- The fault that the driver reads is the one that the device keeps.
pub reply-fault : (m : RegisterModel) → (reply m).fault_status ≡ (status m).fault_status
unfolding status read contains_range status_of_data bytes_from_registers
reply-fault m = refl
