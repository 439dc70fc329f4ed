-- ===== src/Tactile/Framing.antt =====
-- The packets of the USB link: `UsbPacket`, `calcCrc8`, `usbSend` and `usbReadByte` of
-- tsf/sdk_cpp/RobotiqTactileSensor.cpp. A packet is its bytes in memory, header first; the three
-- header bytes behind the start byte are the checksum, the command and the data length.
pub mod Receive
pub mod Frame
pub mod Stream
pub mod RoundTrip
use tactile_sensors.Base.{
  ℕ, Bool, List, [], drop, false, get_or, if◌then◌else◌, leb, ltb, set, suc, take, true, zero, ◌!=◌,
  ◌&&◌, ◌++◌, ◌+◌, ◌-◌, ◌==◌, ◌∷◌,
}

abbrev pub start_byte : ℕ
start_byte = 0x9A

abbrev pub header_size : ℕ
header_size = 4

abbrev pub max_data_size : ℕ
max_data_size = 256

abbrev pub max_size : ℕ
max_size = header_size + max_data_size

-- `sizeof(UsbPacket)` bytes.
abbrev pub UsbPacket : Type 0
UsbPacket = List ℕ

unfoldable pub crc8 : UsbPacket → ℕ
crc8 p = get_or p 1 0

unfoldable pub command : UsbPacket → ℕ
command p = get_or p 2 0

unfoldable pub data_length : UsbPacket → ℕ
data_length p = get_or p 3 0

unfoldable pub packet_data : UsbPacket → List ℕ
packet_data p = drop header_size p

-- `calcCrc8` of the bytes from `from` on: the byte before them, whatever the length.
unfoldable pub calc_crc8 : UsbPacket → ℕ → ℕ → ℕ
calc_crc8 p from len = get_or p (from - 1) 0

-- The bytes that `usbSend` hands to the port.
unfoldable pub usb_send : UsbPacket → List ℕ
unfolding calc_crc8 data_length
usb_send p =
    let started = set p 0 start_byte in
    let summed = set started 1 (calc_crc8 started 2 (data_length started + 2)) in
    take (data_length summed + 4) summed

-- The state of the receiver: the packet so far, and how many bytes of it.
pub record Receiver : Type 0 where
  pub packet : UsbPacket
  pub read_so_far : ℕ

-- `memmove` of the bytes from `i` up to `n` to the front.
unfoldable pub shift_back : UsbPacket → ℕ → ℕ → UsbPacket
shift_back p i n = take (n - i) (drop i p) ++ drop (n - i) p

-- The search for the next start byte, from `i` on with `left` bytes to look at, `n` in all.
unfoldable pub resync : ℕ → ℕ → ℕ → UsbPacket → Receiver
unfolding shift_back
resync zero i n p = record { packet = p; read_so_far = 0 }
resync (suc left) i n p =
    let rest = resync left (i + 1) n p in
    if get_or p i 0 == start_byte
    then record { packet = shift_back p i n; read_so_far = n - i }
    else rest

-- `usbReadByte`: whether a packet is complete, and the receiver afterwards.
unfoldable pub usb_read_byte : Receiver → ℕ → Bool × Receiver
unfolding data_length crc8 calc_crc8 resync
usb_read_byte r d =
    if r.read_so_far == 0 && d != start_byte
    then (false, r)
    else (let p = if ltb r.read_so_far max_size then set r.packet r.read_so_far d else r.packet in
        let n = r.read_so_far + 1 in
        if ltb 3 n && leb (data_length p + header_size) n
        then (if crc8 p == calc_crc8 p 2 (data_length p + 2)
            then (true, record { packet = p; read_so_far = 0 })
            else (
              false,
              resync (data_length p + header_size - 1) 1 (data_length p + header_size) p,
            ))
        else (false, record { packet = p; read_so_far = n }))

-- What the reader makes of a complete packet.
pub record Packet : Type 0 where
  pub code : ℕ
  pub payload : List ℕ

unfoldable pub packet_of : UsbPacket → Packet
unfolding command packet_data data_length
packet_of p = record { code = command p; payload = take (data_length p) (packet_data p) }

-- The bytes of a read, one after the other, with the packets that they complete.
unfoldable pub receive : Receiver → List ℕ → Receiver × List Packet
unfolding packet_of usb_read_byte
receive r [] = (r, [])
receive r (d ∷ ds) =
    let (complete, r') = usb_read_byte r d in
    let (last, packets) = receive r' ds in
    (last, if complete then packet_of r'.packet ∷ packets else packets)
