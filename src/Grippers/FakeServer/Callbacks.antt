-- ===== src/Grippers/FakeServer/Callbacks.antt =====
-- What the callbacks of src/fake/gripper_server.cpp let through to the device, and what the port of
-- src/fake/gripper_serial.cpp hands back.
use tactile_sensors.Base.{
  ℕ, length, Bool, Bool-cases, arith, le→leb, false, true, get_or, leb, ltb, leb→le, ◌&&◌, ◌+◌, ◌-◌,
  ◌<◌, ◌^◌, List, [], ap, append_assoc, if◌then◌else◌, inl, inr, min, refl, take-append-drop, ◌++◌,
  ◌==◌, ◌∙◌, ◌∷◌, ◌≡◌,
}
use tactile_sensors.Grippers.Blocks.Packing.{status_address}
use tactile_sensors.Grippers.FakeGripper.{
  RegisterModel, block_registers, contains_range, in_command_block, read, register_count,
}
use tactile_sensors.Grippers.FakeGripper.Registers.{
  contains_range_iff, read-get, write-quiet, write-registers,
}
use tactile_sensors.Grippers.FakeGripper.Protocol.{IsTracked, write-IsTracked}
use tactile_sensors.Grippers.FakeServer.{
  Server, ServerError, no_error, illegal_data_address, on_read_holding_registers,
  on_write_multiple_registers, drain, GripperSerial, read_port,
}

-- The device has the registers up to the end of its status block.
abbrev pub fits : ℕ → ℕ → Bool
fits address quantity = leb (address + quantity) (status_address + block_registers)

abbrev error_of : Bool → ServerError
error_of covered = if covered then no_error else illegal_data_address

-- A cell of the caller's buffer after a read, of `i` before.
abbrev cell_read : RegisterModel → ℕ → ℕ → ℕ → ℕ → ℕ
cell_read m address quantity i old =
    if fits address quantity && ltb i quantity
    then (if in_command_block (address + i) then 0 else m.registers (address + i))
    else old

-- A register below the status block after a write.
abbrev register_written : RegisterModel → ℕ → ℕ → List ℕ → ℕ → ℕ
register_written m address quantity values r =
    if fits address quantity && leb address r && ltb r (address + quantity)
    then get_or values (r - address) 0
    else m.registers r

-- A request's outcome: the error, what the model logs, the buffer and the device.
pub record Answered (s : Server) (address quantity : ℕ) (out values : List ℕ) : Type 0 where
  pub read_error :
      (on_read_holding_registers s address quantity out).0 ≡ error_of (fits address quantity)
  pub read_quiet : (on_read_holding_registers s address quantity out).2 ≡ []
  pub read_cells :
      (i : ℕ)
      → i < length out
      → get_or (on_read_holding_registers s address quantity out).1 i 0
        ≡ cell_read s.model address quantity i (get_or out i 0)
  pub write_error :
      (on_write_multiple_registers s address quantity values).0 ≡ error_of (fits address quantity)
  pub write_quiet : (on_write_multiple_registers s address quantity values).2 ≡ []
  pub write_registers :
      (r : ℕ)
      → r < status_address
      → (on_write_multiple_registers s address quantity values).1.model.registers r
        ≡ register_written s.model address quantity values r
  pub write_refused :
      fits address quantity ≡ false → (on_write_multiple_registers s address quantity values).1 ≡ s
  pub write_tracked : IsTracked (on_write_multiple_registers s address quantity values).1.model

module _ (s : Server) (address quantity : ℕ) (out values : List ℕ) (a : address < 2 ^ 16)
    (q : quantity < 2 ^ 16) where
  granted :
      0 < quantity
      → fits address quantity ≡ true
      → IsTracked s.model
      → Answered s address quantity out values
  unfolding on_read_holding_registers on_write_multiple_registers read
  granted some_left c t =
      let covered : contains_range address quantity ≡ true =
        (contains_range_iff address quantity a q).1 (omega arith, leb→le _ _ c) in
      let cells = read-get s.model address quantity out in
      record {
        read_error = rw (covered, c) refl;
        read_quiet = rw covered refl;
        read_cells = λ i h. rw (covered, c) (rw covered at (cells i a q covered h).0);
        write_error = rw (covered, c) refl;
        write_quiet = rw covered (write-quiet s.model address quantity values covered);
        write_registers =
            λ r h. rw (covered, c) (write-registers s.model address quantity values covered r h);
        write_refused = λ h. absurd (cc (c, h));
        write_tracked = rw covered (write-IsTracked s.model address quantity values t);
      }

  refused :
      fits address quantity ≡ false → IsTracked s.model → Answered s address quantity out values
  unfolding on_read_holding_registers on_write_multiple_registers
  refused c t = elim (Bool-cases (contains_range address quantity)) [
    | inl covered ↦ absurd (
        cc (
          c,
          le→leb (address + quantity) register_count
              ((contains_range_iff address quantity a q).0 covered).1,
        ))
    | inr none_left ↦ record {
      read_error = rw (none_left, c) refl;
      read_quiet = rw none_left refl;
      read_cells = λ i h. rw (none_left, c) refl;
      write_error = rw (none_left, c) refl;
      write_quiet = rw none_left refl;
      write_registers = λ r h. rw (none_left, c) refl;
      write_refused = λ _. rw none_left refl;
      write_tracked = rw none_left t;
    }
  ]

-- A request for one register or more is answered with an error exactly when its range ends behind the
-- status block, and then it leaves the buffer and the device as they were. Otherwise a read fills the
-- first cells of the buffer, with zero for a register of the command block and with the register for
-- any other, and a write puts its values into the registers of the range that lie below the status
-- block, and changes no other of these. The device logs nothing, as it would on a range that it has
-- to refuse, and its edge tracking stays right.
pub Server-Answered :
    (s : Server) (address quantity : ℕ) (out values : List ℕ)
    → address < 2 ^ 16
    → quantity < 2 ^ 16
    → 0 < quantity
    → IsTracked s.model
    → Answered s address quantity out values
Server-Answered s address quantity out values a q some_left t =
    elim (Bool-cases (fits address quantity)) [
      | inl c ↦ granted s address quantity out values a q some_left c t
      | inr c ↦ refused s address quantity out values a q c t
    ]

-- The reads of a port in a row, each with its size and timeout: all that they hand back.
unfoldable pub read_all : GripperSerial → List (ℕ × ℕ) → List ℕ × GripperSerial
unfolding read_port
read_all p [] = ([], p)
read_all p (r ∷ rs) =
    let (bytes, p') = read_port p r.0 r.1 in
    let (more, last) = read_all p' rs in (bytes ++ more, last)

read_port-split :
    (p : GripperSerial) (size timeout : ℕ)
    → (read_port p size timeout).0 ++ (read_port p size timeout).1.server.to_client
      ≡ p.server.to_client
unfolding read_port drain
read_port-split p size timeout = elim (Bool-cases (timeout == 0)) [
  | inl e ↦ rw e refl
  | inr e ↦ rw e (take-append-drop (min size (length p.server.to_client)) p.server.to_client)
]

-- However the reads of the port divide the reply, no byte is lost, doubled or moved: what they hand
-- back, followed by what is still queued, is the reply.
pub read_all-split :
    (p : GripperSerial) (rs : List (ℕ × ℕ))
    → (read_all p rs).0 ++ (read_all p rs).1.server.to_client ≡ p.server.to_client
unfolding read_all
read_all-split p [] = refl
read_all-split p (r ∷ rs) =
    let p' = (read_port p r.0 r.1).1 in
    append_assoc (read_port p r.0 r.1).0 (read_all p' rs).0 (read_all p' rs).1.server.to_client
    ∙ ap (λ bytes. (read_port p r.0 r.1).0 ++ bytes) (read_all-split p' rs)
    ∙ read_port-split p r.0 r.1
