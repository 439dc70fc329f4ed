-- ===== src/Grippers/Client/Callbacks.antt =====
-- The callbacks that nanomodbus drives the serial link with: `readSerial` and `writeSerial` of
-- src/modbus_client.cpp. What the Serial does is an argument.
use tactile_sensors.Base.{
  ℕ, List, [], ap, arith, drop, if◌then◌else◌, length, ltb, min, refl, suc, take, zero, ◌!=◌, ◌++◌,
  ◌∷◌, ◌≡◌, ◌≤◌,
}
use tactile_sensors.Grippers.Log.{Line, error, excess_bytes, read_failed, write_failed}

pub data Outcome (A : Type 0) : Type 0 where
  finished : A → Outcome A
  raised : Outcome A

-- The callback's return value: a number of bytes, or a negative one.
pub data Transferred : Type 0 where
  bytes : ℕ → Transferred
  negative : Transferred

-- `std::copy_n(data, n, buf)`: the first `n` cells of the buffer are overwritten.
unfoldable pub copy_into : ℕ → List ℕ → List ℕ → List ℕ
copy_into zero data' buf = buf
copy_into (suc n) [] buf = buf
copy_into (suc n) (x ∷ xs) [] = []
copy_into (suc n) (x ∷ xs) (b ∷ buf) = x ∷ copy_into n xs buf

unfoldable pub read_serial : List ℕ → ℕ → Outcome (List ℕ) → Transferred × List ℕ × List Line
unfolding copy_into
read_serial buf count (finished received) =
    let n = min (length received) count in
    (
      bytes n,
      copy_into n received buf,
      if n != length received
          then record { level = error; message = excess_bytes (length received) count } ∷ []
          else [],
    )
read_serial buf count raised = (negative, buf, record { level = error; message = read_failed } ∷ [])

unfoldable pub write_serial : ℕ → Outcome (Unit {0}) → Transferred × List Line
write_serial count (finished _) = (bytes count, [])
write_serial count raised = (negative, record { level = error; message = write_failed } ∷ [])

copy_into-lem :
    (n : ℕ) (xs buf : List ℕ)
    → n ≤ length xs
    → n ≤ length buf
    → copy_into n xs buf ≡ take n xs ++ drop n buf
unfolding copy_into
copy_into-lem zero xs buf h k = refl
copy_into-lem (suc n) [] buf h k = absurd (omega arith)
copy_into-lem (suc n) (x ∷ xs) [] h k = absurd (omega arith)
copy_into-lem (suc n) (x ∷ xs) (b ∷ buf) h k =
    ap (◌∷◌ x) (copy_into-lem n xs buf (omega arith) (omega arith))

-- Whatever a Serial hands back for a request of `count` bytes, the callback stores no more than
-- `count` of them, in order, reports how many, leaves the rest of the caller's buffer as it was, and
-- logs one error exactly when it had to drop some.
pub read_serial-finished :
    (buf received : List ℕ) (count : ℕ)
    → count ≤ length buf
    → let (result, buf', lines) = read_serial buf count (finished received) in
      let n = min (length received) count in
      (result ≡ bytes n)
      × (n ≤ count)
      × (buf' ≡ take n received ++ drop n buf)
      × (length lines ≡ (if ltb count (length received) then 1 else 0))
unfolding read_serial
read_serial-finished buf received count h = (
  refl,
  omega arith,
  copy_into-lem (min (length received) count) received buf (omega arith) (omega arith),
  ground arith,
)
