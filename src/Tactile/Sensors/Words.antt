-- ===== src/Tactile/Sensors/Words.antt =====
-- Big-endian numbers: what the readers of tsf/sdk_cpp/RobotiqTactileSensor.cpp make of bytes.
use tactile_sensors.Base.{
  ℕ, arith, ◌*◌, ◌+◌, ◌<◌, ◌^◌, ◌≡◌, List, [], length, refl, ◌%◌, ◌/◌, ◌∙◌, ◌∷◌, ◌++◌,
}
use tactile_sensors.Tactile.Sensors.{parse_big_endian2, parse_big_endian8}
use tactile_sensors.Base.Bits.{bit_or_shifted, bit_or_below}

pub big_endian2-bytes : (hi lo : ℕ) → hi < 256 → lo < 256 → parse_big_endian2 hi lo ≡ hi * 256 + lo
unfolding parse_big_endian2
big_endian2-bytes hi lo h l = omega (arith, bit_or_shifted 8 hi lo l)

pub big_endian2-halves : (v : ℕ) → v < 2 ^ 16 → parse_big_endian2 (v / 256) (v % 256) ≡ v
big_endian2-halves v h =
    big_endian2-bytes (v / 256) (v % 256) (omega arith) (omega arith) ∙ omega arith

-- The number that eight bytes spell, the first one highest.
abbrev pub spelled : List ℕ → ℕ
spelled [] = 0
spelled (b ∷ bs) = b * 256 ^ length bs + spelled bs

-- The 64-bit reader gives the number that eight bytes spell, in order.
pub big_endian8-spelled :
    (b0 b1 b2 b3 b4 b5 b6 b7 : ℕ) (rest : List ℕ)
    → b1 < 256
    → b2 < 256
    → b3 < 256
    → b4 < 256
    → b5 < 256
    → b6 < 256
    → b7 < 256
    → parse_big_endian8 (b0 ∷ b1 ∷ b2 ∷ b3 ∷ b4 ∷ b5 ∷ b6 ∷ b7 ∷ rest)
      ≡ spelled (b0 ∷ b1 ∷ b2 ∷ b3 ∷ b4 ∷ b5 ∷ b6 ∷ b7 ∷ [])
unfolding parse_big_endian8
big_endian8-spelled b0 b1 b2 b3 b4 b5 b6 b7 rest h1 h2 h3 h4 h5 h6 h7 =
    let s1 = b0 * 2 ^ 56 + b1 * 2 ^ 48 in
    let s2 = s1 + b2 * 2 ^ 40 in
    let s3 = s2 + b3 * 2 ^ 32 in
    let s4 = s3 + b4 * 2 ^ 24 in
    let s5 = s4 + b5 * 2 ^ 16 in
    let s6 = s5 + b6 * 2 ^ 8 in
    let q1 = b0 * 256 + b1 in
    let q2 = q1 * 256 + b2 in
    let q3 = q2 * 256 + b3 in
    let q4 = q3 * 256 + b4 in
    let q5 = q4 * 256 + b5 in
    let q6 = q5 * 256 + b6 in
    rw
      (
        bit_or_below 56 (b0 * 2 ^ 56) b0 (b1 * 2 ^ 48) refl (omega arith),
        bit_or_below 48 s1 q1 (b2 * 2 ^ 40) (omega arith) (omega arith),
        bit_or_below 40 s2 q2 (b3 * 2 ^ 32) (omega arith) (omega arith),
        bit_or_below 32 s3 q3 (b4 * 2 ^ 24) (omega arith) (omega arith),
        bit_or_below 24 s4 q4 (b5 * 2 ^ 16) (omega arith) (omega arith),
        bit_or_below 16 s5 q5 (b6 * 2 ^ 8) (omega arith) (omega arith),
        bit_or_below 8 s6 q6 b7 (omega arith) (omega arith),
      )
      (omega arith)

-- The eight bytes of a 64-bit number, the highest first.
abbrev pub eight_bytes : ℕ → List ℕ
eight_bytes v =
    v / 256 / 256 / 256 / 256 / 256 / 256 / 256
    ∷ v / 256 / 256 / 256 / 256 / 256 / 256 % 256
    ∷ v / 256 / 256 / 256 / 256 / 256 % 256
    ∷ v / 256 / 256 / 256 / 256 % 256
    ∷ v / 256 / 256 / 256 % 256
    ∷ v / 256 / 256 % 256
    ∷ v / 256 % 256
    ∷ v % 256
    ∷ []

spelled-eight_bytes : (v : ℕ) → spelled (eight_bytes v) ≡ v
spelled-eight_bytes v = omega arith

pub big_endian8-eight_bytes :
    (v : ℕ) (rest : List ℕ) → parse_big_endian8 (eight_bytes v ++ rest) ≡ v
big_endian8-eight_bytes v rest =
    let b0 = v / 256 / 256 / 256 / 256 / 256 / 256 / 256 in
    let b1 = v / 256 / 256 / 256 / 256 / 256 / 256 % 256 in
    let b2 = v / 256 / 256 / 256 / 256 / 256 % 256 in
    let b3 = v / 256 / 256 / 256 / 256 % 256 in
    let b4 = v / 256 / 256 / 256 % 256 in
    let b5 = v / 256 / 256 % 256 in
    let b6 = v / 256 % 256 in
    let b7 = v % 256 in
    big_endian8-spelled b0 b1 b2 b3 b4 b5 b6 b7 rest (omega arith) (omega arith) (omega arith)
      (omega arith) (omega arith) (omega arith) (omega arith)
    ∙ spelled-eight_bytes v
