-- ===== src/Tactile/Sensors/Bounds.antt =====
-- `parseSensors` of tsf/sdk_cpp/RobotiqTactileSensor.cpp on any bytes at all: its index, and its writes
-- to the arrays of the fingers. A write past the end of an array would make it longer (`put`).
use tactile_sensors.Base.{
  ℕ, Bool-cases, List, [], arith, get_or, inl, inr, length, ltb, ltb→lt, refl, suc, zero, ◌*◌, ◌+◌,
  ◌==◌, ◌∙◌, ◌∷◌, ◌≡◌, ◌≤◌, bit_and, drop, leb, some, ◌-◌, ◌/◌, ◌<◌, ◌^◌,
}
use tactile_sensors.Tactile.Sensors.Packets.{AreFingers, finger-IsFinger}
use tactile_sensors.Tactile.Sensors.{
  FingerData, parse_sensor, extract16_from, extract_uint16, extract_uint64, parse_big_endian2, put,
  static_count, Fingers, finger, parse_at, parse_from, parse_sensors, set_finger,
}
use tactile_sensors.Tactile.Sensors.Extract.{length-put}
use tactile_sensors.Tactile.Sensors.Parse.{IsFinger}

-- What a reader leaves: an array of the size it had, and no more read than there is.
IsWithin : List ℕ → ℕ → List ℕ × ℕ → Type 0
IsWithin to size r = (length r.0 ≡ length to) × (r.1 ≤ size)

extract16_from-IsWithin :
    (left cur : ℕ) (to bytes : List ℕ) (size : ℕ)
    → cur + left ≤ length to
    → 2 * cur ≤ size
    → (length (extract16_from left cur to bytes size).0 ≡ length to)
      × (2 * (extract16_from left cur to bytes size).1 ≤ size)
unfolding extract16_from
extract16_from-IsWithin zero cur to bytes size room h = (refl, h)
extract16_from-IsWithin (suc left) cur to bytes size room h =
    elim (Bool-cases (ltb (2 * cur + 1) size)) [
      | inl e ↦
          (let value =
              parse_big_endian2 (get_or bytes (2 * cur) 0) (get_or bytes (2 * cur + 1) 0) in
            let kept = length-put to cur value (omega arith) in
            let more =
              extract16_from-IsWithin left (cur + 1) (put to cur value) bytes size
                (omega (arith, kept)) (omega (arith, ltb→lt (2 * cur + 1) size e)) in
            rw e (more.0 ∙ kept, more.1))
      | inr e ↦ rw e (refl, h)
    ]

extract_uint16-IsWithin :
    (to : List ℕ) (to_count : ℕ) (bytes : List ℕ) (size : ℕ)
    → to_count ≤ length to
    → IsWithin to size (extract_uint16 to to_count bytes size)
unfolding IsWithin extract_uint16
extract_uint16-IsWithin to to_count bytes size room =
    let w = extract16_from-IsWithin to_count 0 to bytes size (omega arith) (omega arith) in
    (w.0, omega (arith, w.1))

extract_uint64-within :
    (to : ℕ) (bytes : List ℕ) (size : ℕ) → (extract_uint64 to bytes size).1 ≤ size
unfolding extract_uint64
extract_uint64-within to bytes size = ground arith

-- A sensor's data leave the finger's arrays their sizes, and are no more than there is.
FitsFinger : ℕ → FingerData × ℕ → Type 0
FitsFinger size r = IsFinger r.0 × (r.1 ≤ size)

pub same_sizes :
    {d d' : FingerData}
    → IsFinger d
    → length d'.static_tactile ≡ length d.static_tactile
    → length d'.dynamic_tactile ≡ length d.dynamic_tactile
    → length d'.accelerometer ≡ length d.accelerometer
    → length d'.gyroscope ≡ length d.gyroscope
    → IsFinger d'
same_sizes fine s d a g = record {
  static_size = s ∙ fine.static_size;
  dynamic_size = d ∙ fine.dynamic_size;
  acceleration_size = a ∙ fine.acceleration_size;
  rotation_size = g ∙ fine.rotation_size;
}

parse_sensor-FitsFinger :
    (sensor_type : ℕ) (d : FingerData) (bytes : List ℕ) (size : ℕ)
    → IsFinger d
    → FitsFinger size (parse_sensor sensor_type d bytes size)
unfolding IsWithin FitsFinger parse_sensor
parse_sensor-FitsFinger sensor_type d bytes size fine =
    let same : IsFinger d = fine in
    let dynamic =
      extract_uint16-IsWithin d.dynamic_tactile 1 bytes size (omega (arith, fine.dynamic_size)) in
    let static =
      extract_uint16-IsWithin d.static_tactile static_count bytes size
        (omega (arith, fine.static_size)) in
    let accel =
      extract_uint16-IsWithin d.accelerometer 3 bytes size
        (omega (arith, fine.acceleration_size)) in
    let gyro =
      extract_uint16-IsWithin d.gyroscope 3 bytes size (omega (arith, fine.rotation_size)) in
    let warm = extract_uint16-IsWithin (d.temperature ∷ []) 1 bytes size (omega arith) in
    let stamp = extract_uint64-within d.timestamp bytes size in
    elim (Bool-cases (sensor_type == 0x20)) [
      | inl e ↦ rw e (same_sizes fine refl dynamic.0 refl refl, dynamic.1)
      | inr e1 ↦ elim (Bool-cases (sensor_type == 0x10)) [
        | inl e ↦ rw (e1, e) (same_sizes fine static.0 refl refl refl, static.1)
        | inr e2 ↦ elim (Bool-cases (sensor_type == 0x30)) [
          | inl e ↦ rw (e1, e2, e) (same_sizes fine refl refl accel.0 refl, accel.1)
          | inr e3 ↦ elim (Bool-cases (sensor_type == 0x40)) [
            | inl e ↦ rw (e1, e2, e3, e) (same_sizes fine refl refl refl gyro.0, gyro.1)
            | inr e4 ↦ elim (Bool-cases (sensor_type == 0x60)) [
              | inl e ↦ rw (e1, e2, e3, e4, e) (same_sizes fine refl refl refl refl, warm.1)
              | inr e5 ↦ elim (Bool-cases (sensor_type == 0x70)) [
                | inl e ↦ rw (e1, e2, e3, e4, e5, e) (same_sizes fine refl refl refl refl, stamp)
                | inr e6 ↦ rw (e1, e2, e3, e4, e5, e6) (same, omega arith)
              ]
            ]
          ]
        ]
      ]
    ]

set_finger-AreFingers :
    (fs : Fingers) (f : ℕ) (d : FingerData)
    → AreFingers fs
    → IsFinger d
    → AreFingers (set_finger fs f d)
set_finger-AreFingers fs zero d h fine = record { first = fine; second = h.second }
set_finger-AreFingers fs (suc f) d h fine = record { first = h.first; second = fine }

-- The arrays keep their sizes, the index grows, and it stays within the packet.
pub record IsRound (bytes : List ℕ) (i : ℕ) (r : Fingers × ℕ) : Type 0 where
  pub sizes : AreFingers r.0
  pub advances : i < r.1
  pub stays : r.1 ≤ length bytes

-- A round of the parser at an index within the packet moves the index forward, but not past the end
-- of the packet, and leaves the arrays of both fingers their sizes.
pub parse_at-IsRound :
    (bytes : List ℕ) (i : ℕ) (fs : Fingers)
    → AreFingers fs
    → i < length bytes
    → IsRound bytes i (parse_at bytes i fs)
unfolding FitsFinger parse_at
parse_at-IsRound bytes i fs h within =
    let type_byte = get_or bytes i 0 in
    let f = bit_and (type_byte / 2 ^ 2) 0x03 in
    let fits =
      parse_sensor-FitsFinger (bit_and type_byte 0xF0) (finger fs f) (drop (i + 1) bytes)
        (length bytes - (i + 1)) (finger-IsFinger fs f h) in
    elim (Bool-cases (leb 2 f)) [
      | inl e ↦ rw e (record { sizes = h; advances = omega arith; stays = omega arith })
      | inr e ↦ rw e (record {
        sizes = set_finger-AreFingers fs f _ h fits.0;
        advances = omega arith;
        stays = omega (arith, fits.1);
      })
    ]

parse_from-ends :
    (fuel : ℕ) (bytes : List ℕ) (i : ℕ) (fs : Fingers)
    → AreFingers fs
    → i ≤ length bytes
    → length bytes < i + fuel
    → (fs' : Fingers) × (parse_from fuel bytes i fs ≡ some fs') × AreFingers fs'
unfolding parse_from
parse_from-ends zero bytes i fs h within enough = absurd (omega arith)
parse_from-ends (suc fuel) bytes i fs h within enough = elim (Bool-cases (ltb i (length bytes))) [
  | inl e ↦
      (let round = parse_at-IsRound bytes i fs h (ltb→lt i (length bytes) e) in
        let (fs', ends, fine) =
          parse_from-ends fuel bytes (parse_at bytes i fs).1 (parse_at bytes i fs).0 round.sizes
            round.stays (omega (arith, round.advances)) in
        (fs', rw e ends, fine))
  | inr e ↦ (fs, rw e refl, h)
]

-- Whatever the bytes of a packet, the parser ends, and the arrays of both fingers keep their sizes: no
-- reading is written past the end of its array, which would then be longer.
pub parse_sensors-ends :
    (bytes : List ℕ) (fs : Fingers)
    → AreFingers fs
    → (fs' : Fingers) × (parse_sensors bytes fs ≡ some fs') × AreFingers fs'
unfolding parse_sensors
parse_sensors-ends bytes fs h =
    parse_from-ends (length bytes + 1) bytes 0 fs h (omega arith) (omega arith)
