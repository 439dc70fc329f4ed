-- ===== src/Tactile/Port.antt =====
-- The reads of the port in `threadLoop` of tsf/sdk_cpp/RobotiqTactileSensor.cpp, the data rate that it
-- measures, and the packets that start and stop the sensor's reports. What libserialport answers is an
-- argument: the first byte, the number of bytes that wait, or a negative code, and the bytes that are
-- there. Times are in milliseconds.
use tactile_sensors.Base.{
  ℕ, length, Bool-cases, List, Option, [], ap, arith, gt→leb, if◌then◌else◌, inl, inr, leb, ltb,
  lt→ltb, max, none, refl, set, some, suc, take, zero, ◌%◌, ◌*◌, ◌+◌, ◌-◌, ◌/◌, ◌^◌, ◌∷◌, ◌≡◌, ◌≤◌,
}
use tactile_sensors.Tactile.Framing.{UsbPacket, usb_send}

-- The answer of `sp_input_waiting`: a count, or the negative code that `fails n` stands for.
pub data InputWaiting : Type 0 where
  waits fails : ℕ → InputWaiting

pub record Port : Type 0 where
  pub buffer_size : ℕ
  pub received_bytes : ℕ
  pub data_rate : ℕ
  pub data_rate_time : ℕ

abbrev pub new_port : ℕ → Port
new_port now = record {
  buffer_size = 1024;
  received_bytes = 0;
  data_rate = 0;
  data_rate_time = now;
}

pub data PortRead : Type 0 where
  nothing : PortRead
  -- `resize` throws on the thread, for a size that no vector can have.
  length_error : PortRead
  got : List ℕ → PortRead

-- The bytes of a round: the first one, and the rest unless reading it fails.
unfoldable pub bytes_of : ℕ → ℕ → Option (List ℕ) → List ℕ
bytes_of first available rest =
    if ltb 1 available
    then elim rest [ none ↦ first ∷ [] | some more ↦ first ∷ more ]
    else take available (first ∷ [])

-- The bookkeeping of `available` bytes that are read at `now`; the total is an unsigned int.
unfoldable pub count_bytes : Port → ℕ → ℕ → Port
count_bytes p available now =
    let received = (p.received_bytes + available) % 2 ^ 32 in
    let elapsed = now - p.data_rate_time in
    if ltb 200 elapsed
    then record p {
      data_rate = received * 1000 / elapsed;
      received_bytes = 0;
      data_rate_time = now;
    }
    else record p { received_bytes = received }

-- A round in which `available` bytes are announced.
unfoldable pub read_available : Port → ℕ → ℕ → Option (List ℕ) → ℕ → PortRead × Port
unfolding bytes_of count_bytes
read_available p first available rest now =
    let grown = record p { buffer_size = max p.buffer_size available } in
    let bytes = bytes_of first available rest in (got bytes, count_bytes grown (length bytes) now)

-- The round of the loop: `available` is one more than the answer, and a negative one is a huge size.
unfoldable pub read_round : Port → Option ℕ → InputWaiting → Option (List ℕ) → ℕ → PortRead × Port
unfolding read_available
read_round p none waiting rest now = (nothing, p)
read_round p (some first) (waits n) rest now = read_available p first (n + 1) rest now
read_round p (some first) (fails n) rest now =
    if leb n 1 then read_available p first (1 - n) rest now else (length_error, p)

-- The packet that asks for reports every `period` milliseconds; 0 stops them.
unfoldable pub autosend : UsbPacket → ℕ → List ℕ
unfolding usb_send
autosend p period = usb_send (set (set (set p 2 0x58) 3 1) 4 (period % 2 ^ 8))

-- What libserialport hands over is no more than it is asked for.
unfoldable pub IsAsked : ℕ → Option (List ℕ) → Type 0
IsAsked n none = Unit
IsAsked n (some more) = length more ≤ n

-- The bytes of a round in which `n` bytes wait behind the first one.
unfoldable pub expected : ℕ → ℕ → Option (List ℕ) → List ℕ
expected first zero rest = first ∷ []
expected first (suc n) none = first ∷ []
expected first (suc n) (some more) = first ∷ more

bytes_of-expected :
    (first n : ℕ) (rest : Option (List ℕ)) → bytes_of first (n + 1) rest ≡ expected first n rest
unfolding bytes_of expected
bytes_of-expected first zero rest = refl
bytes_of-expected first (suc n) none = rw (lt→ltb 1 (suc n + 1) (omega arith)) refl
bytes_of-expected first (suc n) (some more) = rw (lt→ltb 1 (suc n + 1) (omega arith)) refl

length-expected :
    (first n : ℕ) (rest : Option (List ℕ)) → IsAsked n rest → length (expected first n rest) ≤ n + 1
unfolding expected IsAsked
length-expected first zero rest h = omega arith
length-expected first (suc n) none h = omega arith
length-expected first (suc n) (some more) h = omega arith

buffer_size-count_bytes :
    (p : Port) (available now : ℕ) → (count_bytes p available now).buffer_size ≡ p.buffer_size
unfolding count_bytes
buffer_size-count_bytes p available now = elim (Bool-cases (ltb 200 (now - p.data_rate_time))) [
  | inl e ↦ rw e refl
  | inr e ↦ rw e refl
]

nothing_left :
    (p : Port) (first : ℕ) (rest : Option (List ℕ)) (now : ℕ)
    → (read_available p first 0 rest now).0 ≡ got []
unfolding read_available bytes_of
nothing_left p first rest now = refl

-- A round in which bytes wait hands over the first byte and, if they can be read, those behind it, in
-- order; they fit into the buffer, which never shrinks. If the port answers with an error code below
-- -1, the round ends in an exception; if it answers with -1, the byte that was read is lost.
pub read_round-bytes :
    (p : Port) (first n : ℕ) (rest : Option (List ℕ)) (now : ℕ)
    → IsAsked n rest
    → let next = (read_round p (some first) (waits n) rest now).1 in
      ((read_round p (some first) (waits n) rest now).0 ≡ got (expected first n rest))
      × (length (expected first n rest) ≤ next.buffer_size)
      × (p.buffer_size ≤ next.buffer_size)
      × ((read_round p (some first) (fails (n + 2)) rest now).0 ≡ length_error)
      × ((read_round p (some first) (fails 1) rest now).0 ≡ got [])
unfolding read_round read_available
read_round-bytes p first n rest now h =
    let grown : Port = record p { buffer_size = max p.buffer_size (n + 1) } in
    let size = buffer_size-count_bytes grown (length (bytes_of first (n + 1) rest)) now in
    (
      ap got (bytes_of-expected first n rest),
      omega (arith, size, length-expected first n rest h),
      omega (arith, size),
      rw (gt→leb (n + 2) 1 (omega arith)) refl,
      nothing_left p first rest now,
    )
