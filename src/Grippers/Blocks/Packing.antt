-- ===== src/Grippers/Blocks/Packing.antt =====
-- Blocks in register framing: include/Robotiq/detail/byte_packing.hpp, and the addresses and sizes
-- of include/Robotiq/detail/modbus_constants.hpp.
use tactile_sensors.Base.{
  ℕ, List, [], ap₂, arith, bit_and, bit_or, drop, get_or, length, refl, suc, take, zero, ◌%◌, ◌*◌,
  ◌++◌, ◌+◌, ◌/◌, ◌<◌, ◌^◌, ◌∷◌, ◌≡◌, ◌≤◌, ap, ◌∙◌,
}
use tactile_sensors.Base.Bits.{bit_or_shifted, mask_byte}

abbrev pub command_address : ℕ
command_address = 0x03E8

abbrev pub status_address : ℕ
status_address = 0x07D0

-- Six documented bytes, in pairs.
abbrev pub command_register_count : ℕ
command_register_count = 6 / 2

abbrev pub status_register_count : ℕ
status_register_count = 6 / 2

-- `registersFromBytes<n>`: register `i` joins bytes `2 i` and `2 i + 1`, the first one high.
unfoldable pub registers_from_bytes : ℕ → List ℕ → List ℕ
registers_from_bytes zero block = []
registers_from_bytes (suc n) block =
    bit_or (get_or block 0 0 * 2 ^ 8) (get_or block 1 0) % 2 ^ 16
    ∷ registers_from_bytes n (drop 2 block)

-- `bytesFromRegisters`: overwrites the first bytes of `block`, and leaves its tail.
unfoldable pub bytes_from_registers : List ℕ → List ℕ → List ℕ
bytes_from_registers [] block = block
bytes_from_registers (r ∷ rs) block =
    r / 2 ^ 8 % 2 ^ 8 ∷ bit_and r 0xFF % 2 ^ 8 ∷ bytes_from_registers rs (drop 2 block)

-- Every number of a list is below a bound.
abbrev pub Below : ℕ → List ℕ → Type 0
Below n [] = Unit {0}
Below n (x ∷ xs) = (x < n) × Below n xs

pub join_bytes : (hi lo : ℕ) → hi < 256 → lo < 256 → bit_or (hi * 2 ^ 8) lo % 2 ^ 16 ≡ hi * 256 + lo
join_bytes hi lo h l = omega (arith, bit_or_shifted 8 hi lo l)

pub split_bytes :
    (hi lo : ℕ)
    → hi < 256
    → lo < 256
    → ((hi * 256 + lo) / 2 ^ 8 % 2 ^ 8 ≡ hi) × (bit_and (hi * 256 + lo) 0xFF % 2 ^ 8 ≡ lo)
split_bytes hi lo h l = omega (arith, mask_byte (hi * 256 + lo))

join_register :
    (r : ℕ) → r < 2 ^ 16 → bit_or (r / 2 ^ 8 % 2 ^ 8 * 2 ^ 8) (bit_and r 0xFF % 2 ^ 8) % 2 ^ 16 ≡ r
join_register r h = omega (
  arith,
  mask_byte r,
  bit_or_shifted 8 (r / 2 ^ 8 % 2 ^ 8) (bit_and r 0xFF % 2 ^ 8) (omega arith),
)

drop-drop_two : (k : ℕ) (bytes : List ℕ) → drop k (drop 2 bytes) ≡ drop (suc (suc k)) bytes
drop-drop_two zero [] = refl
drop-drop_two (suc k) [] = refl
drop-drop_two zero (x ∷ []) = refl
drop-drop_two (suc k) (x ∷ []) = refl
drop-drop_two k (x ∷ y ∷ bytes) = refl

-- What the registers of a block write over another block: the first `2 n` bytes of the one, then
-- the tail of the other.
pub bytes_from_registers-registers_from_bytes :
    (n : ℕ) (from to : List ℕ)
    → Below 256 from
    → n + n ≤ length from
    → bytes_from_registers (registers_from_bytes n from) to ≡ take (n + n) from ++ drop (n + n) to
unfolding registers_from_bytes bytes_from_registers
bytes_from_registers-registers_from_bytes zero from to b h = refl
bytes_from_registers-registers_from_bytes (suc n) [] to b h = absurd (omega arith)
bytes_from_registers-registers_from_bytes (suc n) (x ∷ []) to b h = absurd (omega arith)
bytes_from_registers-registers_from_bytes (suc n) (x ∷ y ∷ from) to b h =
    let parts = split_bytes x y b.0 b.1.0 in
    let two_more : suc n + suc n ≡ suc (suc (n + n)) = omega arith in
    rw (two_more, join_bytes x y b.0 b.1.0, parts.0, parts.1)
      (ap (λ l. x ∷ y ∷ l)
        (bytes_from_registers-registers_from_bytes n from (drop 2 to) b.1.1 (omega arith)
          ∙ ap (◌++◌ (take (n + n) from)) (drop-drop_two (n + n) to)))

-- Registers come back from the bytes that they were written as, over any block.
pub registers_from_bytes-bytes_from_registers :
    (rs block : List ℕ)
    → Below (2 ^ 16) rs
    → registers_from_bytes (length rs) (bytes_from_registers rs block) ≡ rs
unfolding registers_from_bytes bytes_from_registers
registers_from_bytes-bytes_from_registers [] block b = refl
registers_from_bytes-bytes_from_registers (r ∷ rs) block b =
    ap₂ ◌∷◌ (join_register r b.0) (registers_from_bytes-bytes_from_registers rs (drop 2 block) b.1)
