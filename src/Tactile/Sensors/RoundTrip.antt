-- ===== src/Tactile/Sensors/RoundTrip.antt =====
-- Packets of sensor data, written and parsed: `parseSensors` of tsf/sdk_cpp/RobotiqTactileSensor.cpp.
use tactile_sensors.Base.{
  ℕ, List, [], ap, append_assoc, arith, ge→ltb, length, length-append, lt→ltb, refl, some, suc, sym,
  zero, ◌++◌, ◌+◌, ◌<◌, ◌∙◌, ◌∷◌, ◌≡◌, ◌≤◌,
}
use tactile_sensors.Tactile.Sensors.{
  Fingers, finger, set_finger, parse_at, parse_from, parse_sensors,
}
use tactile_sensors.Tactile.Sensors.Parse.{payload, with_reading}
use tactile_sensors.Tactile.Sensors.Packets.{
  Block, AreBlocks, encoded, with_block, with_blocks, AreFingers, IsBlock, reading, foreign, header,
  block_bytes, parse_at-reading, parse_at-foreign, with_block-AreFingers,
}

pub parse_from-step :
    (fuel : ℕ) (bytes : List ℕ) (i next : ℕ) (fs fs' : Fingers)
    → i < length bytes
    → parse_at bytes i fs ≡ (fs', next)
    → parse_from (suc fuel) bytes i fs ≡ parse_from fuel bytes next fs'
unfolding parse_from
parse_from-step fuel bytes i next fs fs' h e = rw (lt→ltb i (length bytes) h, e) refl

pub parse_from-end :
    (fuel : ℕ) (bytes : List ℕ) (i : ℕ) (fs : Fingers)
    → length bytes ≤ i
    → parse_from (suc fuel) bytes i fs ≡ some fs
unfolding parse_from
parse_from-end fuel bytes i fs h = rw (ge→ltb i (length bytes) h) refl

parse_at-block :
    (done : List ℕ) (b : Block) (rest : List ℕ) (fs : Fingers)
    → IsBlock b
    → AreFingers fs
    → parse_at (done ++ (block_bytes b ++ rest)) (length done) fs
      ≡ (with_block fs b, length (done ++ block_bytes b))
unfolding IsBlock block_bytes with_block
parse_at-block done (foreign b) rest fs v fine =
    parse_at-foreign done b rest fs v ∙ ap (λ n. (fs, n)) (sym (length-append done (b ∷ [])) ∙ refl)
parse_at-block done (reading f part r) rest fs v fine =
    parse_at-reading done f part r rest fs v.0 v.1 v.2 fine
    ∙ ap (λ n. (set_finger fs f (with_reading (finger fs f) r), n))
        (omega (arith, length-append done (header f part r ∷ payload r)))

block_bytes-size : (b : Block) → 1 ≤ length (block_bytes b)
unfolding block_bytes
block_bytes-size (reading f part r) = omega arith
block_bytes-size (foreign b) = omega arith

parse_from-encoded :
    (bs : List Block) (done : List ℕ) (fuel : ℕ) (fs : Fingers)
    → AreBlocks bs
    → AreFingers fs
    → length (encoded bs) < fuel
    → parse_from fuel (done ++ encoded bs) (length done) fs ≡ some (with_blocks fs bs)
unfolding AreBlocks encoded with_blocks
parse_from-encoded bs done zero fs v fine h = absurd (omega arith)
parse_from-encoded [] done (suc fuel) fs v fine h =
    parse_from-end fuel (done ++ []) (length done) fs (omega (arith, length-append done []))
parse_from-encoded (b ∷ bs) done (suc fuel) fs v fine h =
    let block = block_bytes b in
    let bytes = done ++ (block ++ encoded bs) in
    let size = block_bytes-size b in
    parse_from-step fuel bytes (length done) (length (done ++ block)) fs (with_block fs b)
      (omega
        (arith, length-append done (block ++ encoded bs), length-append block (encoded bs), size))
      (parse_at-block done b (encoded bs) fs v.0 fine)
    ∙ ap (λ bytes. parse_from fuel bytes (length (done ++ block)) (with_block fs b))
        (sym (append_assoc done block (encoded bs)))
    ∙ parse_from-encoded bs (done ++ block) fuel (with_block fs b) v.1
        (with_block-AreFingers fs b fine v.0)
        (omega (arith, length-append block (encoded bs), size))

-- A packet of readings that are all there, each for one of the two fingers, and of type bytes that
-- name no finger, is parsed to its end: each reading is stored in its finger, in order, and nothing
-- else changes.
pub parse_sensors-encoded :
    (bs : List Block) (fs : Fingers)
    → AreBlocks bs
    → AreFingers fs
    → parse_sensors (encoded bs) fs ≡ some (with_blocks fs bs)
unfolding parse_sensors
parse_sensors-encoded bs fs v fine =
    parse_from-encoded bs [] (length (encoded bs) + 1) fs v fine (omega arith)
