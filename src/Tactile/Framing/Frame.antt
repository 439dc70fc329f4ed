-- ===== src/Tactile/Framing/Frame.antt =====
-- One packet, from its start byte to its last byte, through `usbReadByte` of
-- tsf/sdk_cpp/RobotiqTactileSensor.cpp.
use tactile_sensors.Base.{
  ℕ, List, [], arith, length, refl, set, ◌++◌, ◌+◌, ◌<◌, ◌∷◌, ◌≡◌, ◌≢◌, Bool, ap, false,
  if◌then◌else◌, inr, leb, true, ◌!=◌, ◌∙◌, length-set, ◌==◌, ◌≤◌, Bool-cases, inl,
}
use tactile_sensors.Base.Store.{store, store-cons, take-store}
use tactile_sensors.Tactile.Framing.Receive.{data_length-set, usb_read_byte_complete}
use tactile_sensors.Tactile.Framing.{
  Receiver, receive, Packet, UsbPacket, data_length, header_size, max_size, packet_of, start_byte,
  usb_read_byte, max_data_size,
}

-- The bytes of a packet on the wire, as `usbSend` lays them out, with any checksum.
abbrev pub frame : ℕ → Packet → List ℕ
frame crc k = start_byte ∷ crc ∷ k.code ∷ length k.payload ∷ k.payload

if-append {ℓ} :
    {A : Type ℓ} (b : Bool) (x : A) (xs ys : List A)
    → (if b then x ∷ (xs ++ ys) else xs ++ ys) ≡ (if b then x ∷ xs else xs) ++ ys
if-append true x xs ys = refl
if-append false x xs ys = refl

pub receive-append :
    (r : Receiver) (ds es : List ℕ)
    → receive r (ds ++ es)
      ≡ ((receive (receive r ds).0 es).0, (receive r ds).1 ++ (receive (receive r ds).0 es).1)
unfolding receive
receive-append r [] es = refl
receive-append r (d ∷ ds) es =
    let (complete, r') = usb_read_byte r d in
    rw (receive-append r' ds es) (
      ap (λ packets. ((receive (receive r' ds).0 es).0, packets))
        (if-append complete (packet_of r'.packet) (receive r' ds).1
          (receive (receive r' ds).0 es).1))

-- What one byte does, once it is known.
receive-pending :
    (r r' : Receiver) (d : ℕ) (ds : List ℕ)
    → usb_read_byte r d ≡ (false, r')
    → receive r (d ∷ ds) ≡ receive r' ds
unfolding receive
receive-pending r r' d ds e = rw e refl

receive_complete :
    (r r' : Receiver) (d : ℕ) (ds : List ℕ)
    → usb_read_byte r d ≡ (true, r')
    → receive r (d ∷ ds) ≡ ((receive r' ds).0, packet_of r'.packet ∷ (receive r' ds).1)
unfolding receive
receive_complete r r' d ds e = rw e refl

-- Bytes between packets: none is a start byte.
abbrev pub IsNoise : List ℕ → Type 0
IsNoise [] = Unit {0}
IsNoise (d ∷ ds) = (d ≢ start_byte) × IsNoise ds

skip :
    (p : UsbPacket) (d : ℕ)
    → d ≢ start_byte
    → usb_read_byte (record { packet = p; read_so_far = 0 }) d
      ≡ (false, record { packet = p; read_so_far = 0 })
unfolding usb_read_byte
skip p d h = let test : (d != start_byte) ≡ true = ground arith in rw test refl

pub receive-noise :
    (p : UsbPacket) (ds : List ℕ)
    → IsNoise ds
    → receive (record { packet = p; read_so_far = 0 }) ds
      ≡ (record { packet = p; read_so_far = 0 }, [])
unfolding receive
receive-noise p [] h = refl
receive-noise p (d ∷ ds) h =
    receive-pending (record { packet = p; read_so_far = 0 })
      (record { packet = p; read_so_far = 0 }) d ds (skip p d h.0)
    ∙ receive-noise p ds h.1

payload_byte :
    (p : UsbPacket) (i d : ℕ)
    → length p ≡ max_size
    → 3 < i
    → i < data_length p + header_size
    → data_length p < 256
    → usb_read_byte (record { packet = p; read_so_far = i }) d ≡ (
        if leb (data_length p + header_size) (i + 1)
        then (true, record { packet = set p i d; read_so_far = 0 })
        else (false, record { packet = set p i d; read_so_far = i + 1 }))
payload_byte p i d size h more byte =
    usb_read_byte_complete (record { packet = p; read_so_far = i }) d
      (record { room = size; unfinished = inr more; length_byte = byte })
    ∙ ground (arith, data_length-set p i d (omega arith))

-- The data bytes of a packet, from `i` bytes on: the last one completes it.
receive-payload :
    (p : UsbPacket) (i : ℕ) (ds : List ℕ)
    → length p ≡ max_size
    → 3 < i
    → i + length ds ≡ data_length p + header_size
    → i < data_length p + header_size
    → data_length p < 256
    → receive (record { packet = p; read_so_far = i }) ds
      ≡ (record { packet = store p i ds; read_so_far = 0 }, packet_of (store p i ds) ∷ [])
unfolding receive store
receive-payload p i [] size h end more byte = absurd (omega arith)
receive-payload p i (d ∷ []) size h end more byte =
    receive_complete (record { packet = p; read_so_far = i })
      (record { packet = set p i d; read_so_far = 0 }) d []
      (payload_byte p i d size h more byte ∙ ground arith)
receive-payload p i (d ∷ e ∷ ds) size h end more byte =
    let same : data_length (set p i d) ≡ data_length p =
      ground (arith, data_length-set p i d (omega arith)) in
    receive-pending (record { packet = p; read_so_far = i })
      (record { packet = set p i d; read_so_far = i + 1 }) d (e ∷ ds)
      (payload_byte p i d size h more byte ∙ ground arith)
    ∙ receive-payload (set p i d) (i + 1) (e ∷ ds) (length-set p i d ∙ size) (omega arith)
        (omega (arith, same)) (omega (arith, same)) (omega (arith, same))

store-behind_header :
    (a b c d : ℕ) (p : UsbPacket) (ds : List ℕ)
    → store (a ∷ b ∷ c ∷ d ∷ p) 4 ds ≡ a ∷ b ∷ c ∷ d ∷ store p 0 ds
store-behind_header a b c d p ds =
    store-cons a (b ∷ c ∷ d ∷ p) 3 ds
    ∙ ap (◌∷◌ a) (
        store-cons b (c ∷ d ∷ p) 2 ds
        ∙ ap (◌∷◌ b) (store-cons c (d ∷ p) 1 ds ∙ ap (◌∷◌ c) (store-cons d p 0 ds)))

-- The packet in memory once a frame is in.
abbrev pub filled : ℕ → Packet → UsbPacket → UsbPacket
filled crc k rest = start_byte ∷ crc ∷ k.code ∷ length k.payload ∷ store rest 0 k.payload

packet_of-filled :
    (crc : ℕ) (k : Packet) (rest : UsbPacket)
    → length k.payload ≤ length rest
    → packet_of (filled crc k rest) ≡ k
unfolding packet_of
packet_of-filled crc k rest h =
    ap (λ payload. record { code = k.code; payload = payload }) (take-store rest k.payload h)

length_byte_read :
    (crc code d len : ℕ) (rest : UsbPacket)
    → length rest ≡ max_data_size
    → d < 256
    → usb_read_byte (record { packet = start_byte ∷ crc ∷ code ∷ d ∷ rest; read_so_far = 3 }) len
      ≡ (let p : UsbPacket = start_byte ∷ crc ∷ code ∷ len ∷ rest in
          if len == 0
          then (true, record { packet = p; read_so_far = 0 })
          else (false, record { packet = p; read_so_far = 4 }))
unfolding data_length
length_byte_read crc code d len rest size old =
    usb_read_byte_complete (record { packet = start_byte ∷ crc ∷ code ∷ d ∷ rest; read_so_far = 3 })
      len (record { room = omega arith; unfinished = inl (omega arith); length_byte = old })
    ∙ ground arith

three_bytes_read :
    (a b c d : ℕ) (rest : UsbPacket) (crc code : ℕ) (ds : List ℕ)
    → receive
        (record { packet = a ∷ b ∷ c ∷ d ∷ rest; read_so_far = 0 })
        (start_byte ∷ crc ∷ code ∷ ds)
      ≡ receive (record { packet = start_byte ∷ crc ∷ code ∷ d ∷ rest; read_so_far = 3 }) ds
unfolding receive usb_read_byte
three_bytes_read a b c d rest crc code ds = refl

pub receive-nil : (r : Receiver) → receive r [] ≡ (r, [])
unfolding receive
receive-nil r = refl

data_length-header :
    (crc code len : ℕ) (rest : UsbPacket) → data_length (start_byte ∷ crc ∷ code ∷ len ∷ rest) ≡ len
unfolding data_length
data_length-header crc code len rest = refl

-- From the start byte on, the header is stored and announces the length.
receive-header :
    (a b c d : ℕ) (rest : UsbPacket) (crc code len : ℕ) (ds : List ℕ)
    → length rest ≡ max_data_size
    → d < 256
    → len < 256
    → receive
        (record { packet = a ∷ b ∷ c ∷ d ∷ rest; read_so_far = 0 })
        (start_byte ∷ crc ∷ code ∷ len ∷ ds)
      ≡ (let p : UsbPacket = start_byte ∷ crc ∷ code ∷ len ∷ rest in
          if len == 0
          then (
            (receive (record { packet = p; read_so_far = 0 }) ds).0,
            packet_of p ∷ (receive (record { packet = p; read_so_far = 0 }) ds).1,
          )
          else receive (record { packet = p; read_so_far = 4 }) ds)
receive-header a b c d rest crc code len ds size old byte =
    let p : UsbPacket = start_byte ∷ crc ∷ code ∷ len ∷ rest in
    let before : Receiver = record {
      packet = start_byte ∷ crc ∷ code ∷ d ∷ rest;
      read_so_far = 3;
    } in
    let read = length_byte_read crc code d len rest size old in
    three_bytes_read a b c d rest crc code (len ∷ ds) ∙ elim (Bool-cases (len == 0)) [
      | inl none_left ↦ rw none_left (
          receive_complete before (record { packet = p; read_so_far = 0 }) len ds
            (rw none_left at read))
      | inr some_left ↦ rw some_left (
          receive-pending before (record { packet = p; read_so_far = 4 }) len ds
            (rw some_left at read))
    ]

-- A frame with its data, from its start byte to its last byte.
pub receive-frame_payload :
    (a b c d : ℕ) (rest : UsbPacket) (crc code : ℕ) (payload : List ℕ)
    → length rest ≡ max_data_size
    → d < 256
    → length payload < 256
    → let k : Packet = record { code = code; payload = payload } in
      receive (record { packet = a ∷ b ∷ c ∷ d ∷ rest; read_so_far = 0 }) (frame crc k)
      ≡ (record { packet = filled crc k rest; read_so_far = 0 }, k ∷ [])
unfolding store
receive-frame_payload a b c d rest crc code [] size old byte =
    let k : Packet = record { code = code; payload = [] } in
    receive-header a b c d rest crc code 0 [] size old byte
    ∙ rw (receive-nil (record { packet = start_byte ∷ crc ∷ code ∷ 0 ∷ rest; read_so_far = 0 })) (
        ap (λ x. (record { packet = filled crc k rest; read_so_far = 0 }, x ∷ []))
          (packet_of-filled crc k rest (omega arith)))
receive-frame_payload a b c d rest crc code (e ∷ es) size old byte =
    let ds : List ℕ = e ∷ es in
    let k : Packet = record { code = code; payload = ds } in
    let p : UsbPacket = start_byte ∷ crc ∷ code ∷ length ds ∷ rest in
    let announced : data_length p ≡ length ds = data_length-header crc code (length ds) rest in
    let test : (length ds == 0) ≡ false = ground arith in
    (rw test at (receive-header a b c d rest crc code (length ds) ds size old byte))
    ∙ receive-payload p 4 ds (omega arith) (omega arith) (omega (arith, announced))
        (omega (arith, announced)) (omega (arith, announced))
    ∙ ap (λ q. (record { packet = q; read_so_far = 0 }, packet_of q ∷ []))
        (store-behind_header start_byte crc code (length ds) rest ds)
    ∙ ap (λ x. (record { packet = filled crc k rest; read_so_far = 0 }, x ∷ []))
        (packet_of-filled crc k rest (omega arith))
