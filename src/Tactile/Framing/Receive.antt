-- ===== src/Tactile/Framing/Receive.antt =====
-- One byte at a time: `usbReadByte` of tsf/sdk_cpp/RobotiqTactileSensor.cpp.
use tactile_sensors.Base.{
  ℕ, arith, eq→==, false, if◌then◌else◌, leb, length, ltb, lt→ltb, refl, set, true, ◌!=◌, ◌&&◌, ◌+◌,
  ◌<◌, ◌==◌, ◌≡◌, ◌≤◌, ◌⊎◌, get_or-set_ne, get_or-set_self, length-set,
}
use tactile_sensors.Tactile.Framing.{
  Receiver, UsbPacket, calc_crc8, crc8, data_length, header_size, max_size, start_byte,
  usb_read_byte,
}

-- The receiver between two bytes: the packet has its room, and the count has not reached the end of
-- what the header announces.
pub record IsReceiving (r : Receiver) : Type 0 where
  pub room : length r.packet ≡ max_size
  pub unfinished : (r.read_so_far ≤ 3) ⊎ (r.read_so_far < data_length r.packet + header_size)
  pub length_byte : data_length r.packet < 256

-- The checksum that is compared is a copy of the one received, so no complete packet is refused.
checksum_accepts : (p : UsbPacket) → crc8 p == calc_crc8 p 2 (data_length p + 2) ≡ true
unfolding crc8 calc_crc8
checksum_accepts p = eq→== _ _ refl

-- The byte that the receiver takes next has room: it is never written past the packet.
next_byte_fits : (r : Receiver) → IsReceiving r → r.read_so_far < max_size
next_byte_fits r v = omega arith

-- A complete packet is always accepted, whatever its checksum and its data: the receiver reports it
-- exactly when the byte is its last one, starts afresh, and never looks for another start byte.
pub usb_read_byte_complete :
    (r : Receiver) (d : ℕ)
    → IsReceiving r
    → let p = set r.packet r.read_so_far d in
      usb_read_byte r d ≡ (
        if r.read_so_far == 0 && d != start_byte
        then (false, r)
        else (if ltb 3 (r.read_so_far + 1) && leb (data_length p + header_size) (r.read_so_far + 1)
            then (true, record { packet = p; read_so_far = 0 })
            else (false, record { packet = p; read_so_far = r.read_so_far + 1 })))
unfolding usb_read_byte
usb_read_byte_complete r d v =
    rw
      (
        lt→ltb r.read_so_far max_size (next_byte_fits r v),
        checksum_accepts (set r.packet r.read_so_far d),
      )
      refl

pub data_length-set :
    (p : UsbPacket) (i d : ℕ)
    → 3 < length p
    → data_length (set p i d) ≡ (if i == 3 then d else data_length p)
unfolding data_length
data_length-set p i d h = ground (arith, get_or-set_self p i d 0, get_or-set_ne p i 3 d 0)

-- Every byte keeps the receiver in order: its packet buffer has its full size, it has read less than
-- a whole packet, and the length that it has read is a byte.
pub usb_read_byte-IsReceiving :
    (r : Receiver) (d : ℕ) → d < 256 → IsReceiving r → IsReceiving (usb_read_byte r d).1
usb_read_byte-IsReceiving r d h v = rw (usb_read_byte_complete r d v) (
    ground (
      arith,
      data_length-set r.packet r.read_so_far d (omega arith),
      length-set r.packet r.read_so_far d,
    ))
