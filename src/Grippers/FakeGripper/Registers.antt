-- ===== src/Grippers/FakeGripper/Registers.antt =====
-- The register file: its bounds, and what reads and writes touch.
use tactile_sensors.Base.{
  ℕ, List, arith, gt→leb, get_or, if◌then◌else◌, leb, length, ltb, suc, true, zero, ◌&&◌, ◌+◌, ◌<◌,
  ◌^◌, ◌↔◌, ◌≡◌, ◌≤◌, [], get_or-set_ne, get_or-set_self, length-set, refl, set, ◌%◌, ◌-◌,
}
use tactile_sensors.Grippers.Blocks.Packing.{status_address}
use tactile_sensors.Grippers.FakeGripper.{
  contains_range, in_command_block, read_from, register_count, RegisterModel, read, copy_n,
  process_command, set_status, write,
}

-- The range check accepts exactly the ranges that end inside the register file and do not end at
-- address 0; so the empty range at 0 is refused.
pub contains_range_iff :
    (address quantity : ℕ)
    → address < 2 ^ 16
    → quantity < 2 ^ 16
    → (contains_range address quantity ≡ true)
      ↔ ((0 < address + quantity) × (address + quantity ≤ register_count))
unfolding contains_range
contains_range_iff address quantity a q = ground arith

-- What one cell of the buffer holds after the rounds of the loop.
read_from-get :
    (registers : ℕ → ℕ) (address n i : ℕ) (out : List ℕ) (j : ℕ)
    → j < length out
    → address + i + n ≤ 2 ^ 16
    → get_or (read_from registers address n i out) j 0 ≡ (
        if leb i j && ltb j (i + n)
        then (if in_command_block (address + j) then 0 else registers (address + j))
        else get_or out j 0)
unfolding read_from
read_from-get registers address zero i out j h fits = ground arith
read_from-get registers address (suc n) i out j h fits =
    let v : ℕ = if in_command_block (address + i) then 0 else registers (address + i) in
    let in_range : (address + i) % 2 ^ 16 ≡ address + i = omega arith in
    rw in_range (
      ground (
        arith,
        read_from-get registers address n (i + 1) (set out i v) j (rw length-set h) (omega arith),
        get_or-set_self out i v 0,
        get_or-set_ne out i j v 0,
      ))

-- A read of a covered range fills the first cells of the buffer: zero for an address of the command
-- block, the register for every other; the rest of the buffer stays, and nothing is logged.
pub read-get :
    (m : RegisterModel) (address quantity : ℕ) (out : List ℕ) (j : ℕ)
    → address < 2 ^ 16
    → quantity < 2 ^ 16
    → contains_range address quantity ≡ true
    → j < length out
    → (get_or (read m address quantity out).0 j 0 ≡ (
        if ltb j quantity
        then (if in_command_block (address + j) then 0 else m.registers (address + j))
        else get_or out j 0))
      × ((read m address quantity out).1 ≡ [])
unfolding read
read-get m address quantity out j a q covered h =
    let bound = (contains_range_iff address quantity a q).0 covered in
    rw covered
      (ground (arith, read_from-get m.registers address quantity 0 out j h (omega arith)), refl)

-- A covered range is read without a line in the log.
pub read-quiet :
    (m : RegisterModel) (address quantity : ℕ) (out : List ℕ)
    → contains_range address quantity ≡ true
    → (read m address quantity out).1 ≡ []
unfolding read
read-quiet m address quantity out covered = rw covered refl

-- So is one written.
pub write-quiet :
    (m : RegisterModel) (address quantity : ℕ) (values : List ℕ)
    → contains_range address quantity ≡ true
    → (write m address quantity values).1 ≡ []
unfolding write
write-quiet m address quantity values covered = rw covered refl

-- Below the status block, which the device fills in itself, a write changes the registers of its range.
pub write-registers :
    (m : RegisterModel) (address quantity : ℕ) (values : List ℕ)
    → contains_range address quantity ≡ true
    → (r : ℕ) → r < status_address
    → (write m address quantity values).0.registers r ≡ (
        if leb address r && ltb r (address + quantity)
        then get_or values (r - address) 0
        else m.registers r)
unfolding write process_command set_status copy_n
write-registers m address quantity values covered r h = rw (covered, gt→leb status_address r h) refl
