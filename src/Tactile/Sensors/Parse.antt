-- ===== src/Tactile/Sensors/Parse.antt =====
-- What `parseSensors` of tsf/sdk_cpp/RobotiqTactileSensor.cpp makes of a packet whose sensor data
-- are all there: each reading ends up in the finger it names.
use tactile_sensors.Base.{
  ℕ, List, [], ap₂, arith, get_or, length, refl, subst, true, ◌*◌, ◌++◌, ◌<◌, ◌∷◌, ◌≡◌, ◌≤◌, ap,
  lt→ltb, ◌+◌, ◌^◌,
}
use tactile_sensors.Tactile.Sensors.Words.{big_endian8-eight_bytes, eight_bytes}
use tactile_sensors.Base.Store.{store-all}
use tactile_sensors.Tactile.Sensors.{
  extract_uint64, FingerData, parse_sensor, static_count, extract_uint16,
}
use tactile_sensors.Tactile.Sensors.Extract.{words, IsWords, extract16_from-words, length-words}

-- What a block of a packet reports.
pub data Reading : Type 0 where
  static_taxels dynamic_taxel acceleration rotation heat : List ℕ → Reading
  clock : ℕ → Reading

unfoldable pub type_code : Reading → ℕ
type_code (static_taxels vs) = 0x10
type_code (dynamic_taxel vs) = 0x20
type_code (acceleration vs) = 0x30
type_code (rotation vs) = 0x40
type_code (heat vs) = 0x60
type_code (clock v) = 0x70

-- The bytes behind the type byte.
unfoldable pub payload : Reading → List ℕ
unfolding words
payload (static_taxels vs) = words vs
payload (dynamic_taxel vs) = words vs
payload (acceleration vs) = words vs
payload (rotation vs) = words vs
payload (heat vs) = words vs
payload (clock v) = eight_bytes v

pub payload_size : Reading → ℕ
payload_size (static_taxels vs) = 2 * static_count
payload_size (dynamic_taxel vs) = 2
payload_size (acceleration vs) = 6
payload_size (rotation vs) = 6
payload_size (heat vs) = 2
payload_size (clock v) = 8

-- The finger with the reading.
unfoldable pub with_reading : FingerData → Reading → FingerData
with_reading d (static_taxels vs) = record d { static_tactile = vs; new_data_available = true }
with_reading d (dynamic_taxel vs) = record d { dynamic_tactile = vs; new_data_available = true }
with_reading d (acceleration vs) = record d { accelerometer = vs; new_data_available = true }
with_reading d (rotation vs) = record d { gyroscope = vs; new_data_available = true }
with_reading d (heat vs) = record d { temperature = get_or vs 0 0; new_data_available = true }
with_reading d (clock v) = record d { timestamp = v; new_data_available = true }

-- The arrays of a finger have the sizes that finger_data.h gives them.
pub record IsFinger (d : FingerData) : Type 0 where
  pub static_size : length d.static_tactile ≡ static_count
  pub dynamic_size : length d.dynamic_tactile ≡ 1
  pub acceleration_size : length d.accelerometer ≡ 3
  pub rotation_size : length d.gyroscope ≡ 3

-- As many numbers as the sensor has, each of 16 bits, or a clock of 64 bits.
unfoldable pub IsReading : Reading → Type 0
unfolding IsWords
IsReading (static_taxels vs) = IsWords vs × (length vs ≡ static_count)
IsReading (dynamic_taxel vs) = IsWords vs × (length vs ≡ 1)
IsReading (acceleration vs) = IsWords vs × (length vs ≡ 3)
IsReading (rotation vs) = IsWords vs × (length vs ≡ 3)
IsReading (heat vs) = IsWords vs × (length vs ≡ 1)
IsReading (clock v) = v < 2 ^ 64

extract_uint16-words :
    (vs rest to : List ℕ) (size : ℕ)
    → IsWords vs
    → length vs ≡ length to
    → length vs < 100
    → 2 * length vs ≤ size
    → extract_uint16 to (length vs) (words vs ++ rest) size ≡ (vs, 2 * length vs)
unfolding extract_uint16
extract_uint16-words vs rest to size w l small h =
    rw
      (
        extract16_from-words vs [] rest 0 to size w (omega arith) (omega arith) (omega arith),
        store-all to vs l,
      )
      (ap₂ (λ a b. (a, b)) refl (omega arith))

extract_uint16-sized :
    (vs rest to : List ℕ) (n size : ℕ)
    → IsWords vs
    → length vs ≡ n
    → length to ≡ n
    → n < 100
    → 2 * n ≤ size
    → extract_uint16 to n (words vs ++ rest) size ≡ (vs, 2 * n)
extract_uint16-sized vs rest to n size w l k small h =
    subst (λ n. extract_uint16 to n (words vs ++ rest) size ≡ (vs, 2 * n)) l
      (extract_uint16-words vs rest to size w (omega arith) (omega arith) (omega arith))

extract_uint64-eight_bytes :
    (v : ℕ) (rest : List ℕ) (to size : ℕ)
    → 8 ≤ size
    → extract_uint64 to (eight_bytes v ++ rest) size ≡ (v, 8)
unfolding extract_uint64
extract_uint64-eight_bytes v rest to size h =
    rw (lt→ltb (8 * 0 + 7) size (omega arith), big_endian8-eight_bytes v rest) refl

pub parse_sensor-reading :
    (r : Reading) (d : FingerData) (rest : List ℕ) (size : ℕ)
    → IsFinger d
    → IsReading r
    → payload_size r ≤ size
    → parse_sensor (type_code r) d (payload r ++ rest) size ≡ (with_reading d r, payload_size r)
unfolding parse_sensor type_code payload IsReading payload_size with_reading
parse_sensor-reading (static_taxels vs) d rest size f v h =
    ap (λ t. (record d { static_tactile = t.0; new_data_available = true }, t.1))
      (extract_uint16-sized vs rest d.static_tactile static_count size v.0 v.1 f.static_size
        (omega arith) h)
parse_sensor-reading (dynamic_taxel vs) d rest size f v h =
    ap (λ t. (record d { dynamic_tactile = t.0; new_data_available = true }, t.1))
      (extract_uint16-sized vs rest d.dynamic_tactile 1 size v.0 v.1 f.dynamic_size (omega arith) h)
parse_sensor-reading (acceleration vs) d rest size f v h =
    ap (λ t. (record d { accelerometer = t.0; new_data_available = true }, t.1))
      (extract_uint16-sized vs rest d.accelerometer 3 size v.0 v.1 f.acceleration_size (omega arith)
        h)
parse_sensor-reading (rotation vs) d rest size f v h =
    ap (λ t. (record d { gyroscope = t.0; new_data_available = true }, t.1))
      (extract_uint16-sized vs rest d.gyroscope 3 size v.0 v.1 f.rotation_size (omega arith) h)
parse_sensor-reading (heat vs) d rest size f v h =
    ap (λ t. (record d { temperature = get_or t.0 0 0; new_data_available = true }, t.1))
      (extract_uint16-sized vs rest (d.temperature ∷ []) 1 size v.0 v.1 refl (omega arith) h)
parse_sensor-reading (clock v) d rest size f h room =
    ap (λ t. (record d { timestamp = t.0; new_data_available = true }, t.1))
      (extract_uint64-eight_bytes v rest d.timestamp size room)

pub length-payload : (r : Reading) → IsReading r → length (payload r) ≡ payload_size r
unfolding payload payload_size IsReading
length-payload (static_taxels vs) h = omega (arith, length-words vs, h.1)
length-payload (dynamic_taxel vs) h = omega (arith, length-words vs, h.1)
length-payload (acceleration vs) h = omega (arith, length-words vs, h.1)
length-payload (rotation vs) h = omega (arith, length-words vs, h.1)
length-payload (heat vs) h = omega (arith, length-words vs, h.1)
length-payload (clock v) h = refl
