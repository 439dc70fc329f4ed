-- ===== src/Tactile/Sensors/Packets.antt =====
-- Whole packets of sensor data through `parseSensors` of tsf/sdk_cpp/RobotiqTactileSensor.cpp.
use tactile_sensors.Base.{
  ℕ, List, [], arith, bit_and, refl, suc, zero, ◌%◌, ◌*◌, ◌++◌, ◌+◌, ◌/◌, ◌<◌, ◌^◌, ◌∷◌, ◌≡◌, ◌≤◌,
  ap, drop, false, get_or, leb, length, length-append, sym, true, ◌-◌, ◌∙◌, gt→leb, le→leb,
}
use tactile_sensors.Tactile.Sensors.Extract.{drop-append_cons, get_or-append}
use tactile_sensors.Base.Bits.{mask_high, mask_two}
use tactile_sensors.Tactile.Sensors.{FingerData, Fingers, finger, set_finger, parse_at}
use tactile_sensors.Tactile.Sensors.Parse.{
  Reading, IsReading, IsFinger, payload, type_code, with_reading, acceleration, clock,
  dynamic_taxel, heat, rotation, static_taxels, payload_size, parse_sensor-reading, length-payload,
}

-- A reading with the finger and the two low bits of its type byte, or a lone type byte.
pub data Block : Type 0 where
  reading : ℕ → ℕ → Reading → Block
  foreign : ℕ → Block

-- Two fingers; a lone type byte is one that names no finger.
unfoldable pub IsBlock : Block → Type 0
unfolding IsReading
IsBlock (reading f part r) = (f < 2) × (part < 4) × IsReading r
IsBlock (foreign b) = 2 ≤ b / 4 % 4

unfoldable pub AreBlocks : List Block → Type 0
unfolding IsBlock
AreBlocks [] = Unit
AreBlocks (b ∷ bs) = IsBlock b × AreBlocks bs

unfoldable pub header : ℕ → ℕ → Reading → ℕ
unfolding type_code
header f part r = type_code r + 4 * f + part

unfoldable pub block_bytes : Block → List ℕ
unfolding header payload
block_bytes (reading f part r) = header f part r ∷ payload r
block_bytes (foreign b) = b ∷ []

-- The data of a packet.
unfoldable pub encoded : List Block → List ℕ
unfolding block_bytes
encoded [] = []
encoded (b ∷ bs) = block_bytes b ++ encoded bs

unfoldable pub with_block : Fingers → Block → Fingers
unfolding with_reading
with_block fs (reading f part r) = set_finger fs f (with_reading (finger fs f) r)
with_block fs (foreign b) = fs

-- The blocks take effect one after the other.
unfoldable pub with_blocks : Fingers → List Block → Fingers
unfolding with_block
with_blocks fs [] = fs
with_blocks fs (b ∷ bs) = with_blocks (with_block fs b) bs

pub record AreFingers (fs : Fingers) : Type 0 where
  pub first : IsFinger fs.finger0
  pub second : IsFinger fs.finger1

type_code-sixteens : (r : Reading) → (type_code r / 16 * 16 ≡ type_code r) × (type_code r < 256)
unfolding type_code
type_code-sixteens (static_taxels vs) = (refl, omega arith)
type_code-sixteens (dynamic_taxel vs) = (refl, omega arith)
type_code-sixteens (acceleration vs) = (refl, omega arith)
type_code-sixteens (rotation vs) = (refl, omega arith)
type_code-sixteens (heat vs) = (refl, omega arith)
type_code-sixteens (clock v) = (refl, omega arith)

header-finger :
    (f part : ℕ) (r : Reading) → f < 2 → part < 4 → bit_and (header f part r / 2 ^ 2) 0x03 ≡ f
unfolding header
header-finger f part r hf hp =
    omega (arith, mask_two ((type_code r + 4 * f + part) / 2 ^ 2), (type_code-sixteens r).0)

header-type :
    (f part : ℕ) (r : Reading) → f < 2 → part < 4 → bit_and (header f part r) 0xF0 ≡ type_code r
unfolding header
header-type f part r hf hp = omega (
  arith,
  mask_high (type_code r + 4 * f + part),
  (type_code-sixteens r).0,
  (type_code-sixteens r).1,
)

with_reading-IsFinger :
    (d : FingerData) (r : Reading) → IsFinger d → IsReading r → IsFinger (with_reading d r)
unfolding with_reading IsReading
with_reading-IsFinger d (static_taxels vs) h v = record {
  static_size = v.1;
  dynamic_size = h.dynamic_size;
  acceleration_size = h.acceleration_size;
  rotation_size = h.rotation_size;
}
with_reading-IsFinger d (dynamic_taxel vs) h v = record {
  static_size = h.static_size;
  dynamic_size = v.1;
  acceleration_size = h.acceleration_size;
  rotation_size = h.rotation_size;
}
with_reading-IsFinger d (acceleration vs) h v = record {
  static_size = h.static_size;
  dynamic_size = h.dynamic_size;
  acceleration_size = v.1;
  rotation_size = h.rotation_size;
}
with_reading-IsFinger d (rotation vs) h v = record {
  static_size = h.static_size;
  dynamic_size = h.dynamic_size;
  acceleration_size = h.acceleration_size;
  rotation_size = v.1;
}
with_reading-IsFinger d (heat vs) h v = record {
  static_size = h.static_size;
  dynamic_size = h.dynamic_size;
  acceleration_size = h.acceleration_size;
  rotation_size = h.rotation_size;
}
with_reading-IsFinger d (clock t) h v = record {
  static_size = h.static_size;
  dynamic_size = h.dynamic_size;
  acceleration_size = h.acceleration_size;
  rotation_size = h.rotation_size;
}

pub finger-IsFinger : (fs : Fingers) (f : ℕ) → AreFingers fs → IsFinger (finger fs f)
finger-IsFinger fs zero h = h.first
finger-IsFinger fs (suc f) h = h.second

pub with_block-AreFingers :
    (fs : Fingers) (b : Block) → AreFingers fs → IsBlock b → AreFingers (with_block fs b)
unfolding with_block IsBlock
with_block-AreFingers fs (foreign b) h v = h
with_block-AreFingers fs (reading zero part r) h v = record {
  first = with_reading-IsFinger fs.finger0 r h.first v.2;
  second = h.second;
}
with_block-AreFingers fs (reading (suc f) part r) h v = record {
  first = h.first;
  second = with_reading-IsFinger fs.finger1 r h.second v.2;
}

pub with_blocks-AreFingers :
    (fs : Fingers) (bs : List Block) → AreFingers fs → AreBlocks bs → AreFingers (with_blocks fs bs)
unfolding AreBlocks with_blocks
with_blocks-AreFingers fs [] h v = h
with_blocks-AreFingers fs (b ∷ bs) h v =
    with_blocks-AreFingers (with_block fs b) bs (with_block-AreFingers fs b h v.0) v.1

pub parse_at-foreign :
    (done : List ℕ) (b : ℕ) (rest : List ℕ) (fs : Fingers)
    → 2 ≤ b / 4 % 4
    → parse_at (done ++ (b ∷ rest)) (length done) fs ≡ (fs, length done + 1)
unfolding parse_at
parse_at-foreign done b rest fs h =
    let here : get_or (done ++ (b ∷ rest)) (length done) 0 ≡ b =
      get_or-append done (b ∷ rest) (length done) 0 0 (omega arith) in
    let far : leb 2 (bit_and (b / 2 ^ 2) 0x03) ≡ true =
      le→leb 2 (bit_and (b / 2 ^ 2) 0x03) (omega (arith, mask_two (b / 2 ^ 2))) in
    rw (here, far) refl

pub parse_at-reading :
    (done : List ℕ) (f part : ℕ) (r : Reading) (rest : List ℕ) (fs : Fingers)
    → f < 2
    → part < 4
    → IsReading r
    → AreFingers fs
    → parse_at (done ++ (header f part r ∷ (payload r ++ rest))) (length done) fs
      ≡ (set_finger fs f (with_reading (finger fs f) r), length done + 1 + length (payload r))
unfolding parse_at
parse_at-reading done f part r rest fs hf hp v fine =
    let tail = payload r ++ rest in
    let bytes = done ++ (header f part r ∷ tail) in
    let here : get_or bytes (length done) 0 ≡ header f part r =
      get_or-append done (header f part r ∷ tail) (length done) 0 0 (omega arith) in
    let near : leb 2 f ≡ false = gt→leb 2 f hf in
    let behind : drop (length done + 1) bytes ≡ tail =
      drop-append_cons done (header f part r) tail (length done + 1) (omega arith) in
    let room : payload_size r ≤ length bytes - (length done + 1) = omega (
      arith,
      length-append done (header f part r ∷ tail),
      length-append (payload r) rest,
      length-payload r v,
    ) in
    rw (here, header-finger f part r hf hp, near, header-type f part r hf hp, behind)
      (ap (λ t. (set_finger fs f t.0, length done + 1 + t.1))
        (parse_sensor-reading r (finger fs f) rest (length bytes - (length done + 1))
            (finger-IsFinger fs f fine) v room
          ∙ ap (λ n. (with_reading (finger fs f) r, n)) (sym (length-payload r v))))
