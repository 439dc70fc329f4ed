-- ===== src/Tactile/Sensors.antt =====
-- The sensor data in a packet: tsf/sdk_cpp/finger_data.h and `parseSensors` with its helpers in
-- tsf/sdk_cpp/RobotiqTactileSensor.cpp. A signed field holds the 16-bit pattern that is stored into
-- it. The data are the bytes of the packet behind its header, as many as its length says.
pub mod Words
pub mod Extract
pub mod Parse
pub mod Packets
pub mod RoundTrip
pub mod Bounds
use tactile_sensors.Base.{
  ℕ, Bool, List, Option, [], bit_and, bit_or, drop, get_or, if◌then◌else◌, leb, length, ltb, none,
  some, suc, true, zero, ◌%◌, ◌*◌, ◌+◌, ◌-◌, ◌/◌, ◌==◌, ◌^◌, ◌∷◌,
}

abbrev pub static_count : ℕ
static_count = 7 * 4

pub record FingerData : Type 0 where
  pub new_data_available : Bool
  pub static_tactile : List ℕ
  pub dynamic_tactile : List ℕ
  pub accelerometer : List ℕ
  pub gyroscope : List ℕ
  pub temperature : ℕ
  pub timestamp : ℕ
  pub baseline : List ℕ

pub record Fingers : Type 0 where
  pub timestamp : ℕ
  pub finger0 : FingerData
  pub finger1 : FingerData

unfoldable pub parse_big_endian2 : ℕ → ℕ → ℕ
parse_big_endian2 hi lo = bit_or (hi * 2 ^ 8) lo % 2 ^ 16

-- The eight bytes at the front of a list.
unfoldable pub parse_big_endian8 : List ℕ → ℕ
parse_big_endian8 d =
    let b = λ (i : ℕ). get_or d i 0 in
    bit_or
      (bit_or
        (bit_or
          (bit_or
            (bit_or (bit_or (bit_or (b 0 * 2 ^ 56) (b 1 * 2 ^ 48)) (b 2 * 2 ^ 40)) (b 3 * 2 ^ 32))
            (b 4 * 2 ^ 24))
          (b 5 * 2 ^ 16))
        (b 6 * 2 ^ 8))
      (b 7)

-- A write to an array. One past the end is kept behind the array, so that it shows: an array that has
-- the size it had was not overrun.
unfoldable pub put : List ℕ → ℕ → ℕ → List ℕ
put [] i v = v ∷ []
put (x ∷ xs) zero v = v ∷ xs
put (x ∷ xs) (suc i) v = x ∷ put xs i v

-- The rounds of the loop of `extractUint16` from `cur` on, `left` elements before `toCount`; the
-- array afterwards and the final `cur`.
unfoldable pub extract16_from : ℕ → ℕ → List ℕ → List ℕ → ℕ → List ℕ × ℕ
unfolding parse_big_endian2
extract16_from zero cur to bytes size = (to, cur)
extract16_from (suc left) cur to bytes size =
    let value = parse_big_endian2 (get_or bytes (2 * cur) 0) (get_or bytes (2 * cur + 1) 0) in
    let rest = extract16_from left (cur + 1) (put to cur value) bytes size in
    if ltb (2 * cur + 1) size then rest else (to, cur)

-- The array and the number of bytes read, a uint8_t.
unfoldable pub extract_uint16 : List ℕ → ℕ → List ℕ → ℕ → List ℕ × ℕ
unfolding extract16_from
extract_uint16 to to_count bytes size =
    let (to', cur) = extract16_from to_count 0 to bytes size in (to', cur * 2 % 2 ^ 8)

-- `extractUint64` with a count of 1, as the one call has it.
unfoldable pub extract_uint64 : ℕ → List ℕ → ℕ → ℕ × ℕ
unfolding parse_big_endian8
extract_uint64 to bytes size =
    if ltb (8 * 0 + 7) size then (parse_big_endian8 bytes, 8) else (to, 0)

-- The sensor that a type byte announces, with the finger and the bytes that follow: the finger's
-- data and the number of bytes consumed.
unfoldable pub parse_sensor : ℕ → FingerData → List ℕ → ℕ → FingerData × ℕ
unfolding extract_uint16 extract_uint64
parse_sensor sensor_type f bytes size =
    if sensor_type == 0x20
    then (let (to, n) = extract_uint16 f.dynamic_tactile 1 bytes size in
        (record f { dynamic_tactile = to; new_data_available = true }, n))
    else if sensor_type == 0x10
    then (let (to, n) = extract_uint16 f.static_tactile static_count bytes size in
        (record f { static_tactile = to; new_data_available = true }, n))
    else if sensor_type == 0x30
    then (let (to, n) = extract_uint16 f.accelerometer 3 bytes size in
        (record f { accelerometer = to; new_data_available = true }, n))
    else if sensor_type == 0x40
    then (let (to, n) = extract_uint16 f.gyroscope 3 bytes size in
        (record f { gyroscope = to; new_data_available = true }, n))
    else if sensor_type == 0x60
    then (let (to, n) = extract_uint16 (f.temperature ∷ []) 1 bytes size in
        (record f { temperature = get_or to 0 0; new_data_available = true }, n))
    else if sensor_type == 0x70
    then (let (to, n) = extract_uint64 f.timestamp bytes size in
        (record f { timestamp = to; new_data_available = true }, n))
    else (f, 0)

-- Finger 0 or 1 of the pair.
abbrev pub finger : Fingers → ℕ → FingerData
finger fs zero = fs.finger0
finger fs (suc f) = fs.finger1

abbrev pub set_finger : Fingers → ℕ → FingerData → Fingers
set_finger fs zero d = record fs { finger0 = d }
set_finger fs (suc f) d = record fs { finger1 = d }

-- One round of the loop of `parseSensors` at index `i`: the fingers and the next index.
unfoldable pub parse_at : List ℕ → ℕ → Fingers → Fingers × ℕ
unfolding parse_sensor
parse_at bytes i fs =
    let type_byte = get_or bytes i 0 in
    let f = bit_and (type_byte / 2 ^ 2) 0x03 in
    if leb 2 f
    then (fs, i + 1)
    else (let (d, n) =
          parse_sensor (bit_and type_byte 0xF0) (finger fs f) (drop (i + 1) bytes)
            (length bytes - (i + 1)) in
        (set_finger fs f d, i + 1 + n))

-- The loop, on fuel; `none` if the fuel runs out.
unfoldable pub parse_from : ℕ → List ℕ → ℕ → Fingers → Option Fingers
parse_from zero bytes i fs = none
parse_from (suc fuel) bytes i fs =
    let (fs', next) = parse_at bytes i fs in
    let rest = parse_from fuel bytes next fs' in if ltb i (length bytes) then rest else some fs

-- The fuel covers one round for each byte and the last test.
unfoldable pub parse_sensors : List ℕ → Fingers → Option Fingers
unfolding parse_from parse_at
parse_sensors bytes fs = parse_from (length bytes + 1) bytes 0 fs
