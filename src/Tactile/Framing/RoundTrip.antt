-- ===== src/Tactile/Framing/RoundTrip.antt =====
-- `usbSend` and `usbReadByte` of tsf/sdk_cpp/RobotiqTactileSensor.cpp: what one end sends the other
-- receives.
use tactile_sensors.Base.{
  ℕ, List, [], ap, arith, length, refl, ◌++◌, ◌<◌, ◌∙◌, ◌∷◌, ◌≡◌, map, take, ◌+◌, suc, length-take,
}
use tactile_sensors.Tactile.Framing.{
  Receiver, receive, UsbPacket, data_length, max_size, usb_send, packet_of, command, packet_data,
  calc_crc8, crc8,
}
use tactile_sensors.Tactile.Framing.Frame.{frame}
use tactile_sensors.Tactile.Framing.Stream.{
  IsIdle, IsTraffic, Sent, bytes_sent, packets_sent, receive-bytes_sent,
}

-- The bytes of packets sent one after the other.
pub sends : List UsbPacket → List ℕ
sends [] = []
sends (p ∷ ps) = usb_send p ++ sends ps

-- Packets that fill their buffer, with a data length of one byte.
abbrev pub ArePackets : List UsbPacket → Type 0
ArePackets [] = Unit
ArePackets (p ∷ ps) = (length p ≡ max_size) × (data_length p < 256) × ArePackets ps

sent_as : UsbPacket → Sent
sent_as p = record { noise = []; checksum = crc8 p; packet = packet_of p }

usb_send-frame :
    (p : UsbPacket)
    → length p ≡ max_size
    → data_length p < 256
    → usb_send p ≡ frame (crc8 p) (packet_of p)
unfolding usb_send data_length calc_crc8 crc8 packet_of command packet_data
usb_send-frame [] h k = absurd (omega arith)
usb_send-frame (a ∷ []) h k = absurd (omega arith)
usb_send-frame (a ∷ b ∷ []) h k = absurd (omega arith)
usb_send-frame (a ∷ b ∷ c ∷ []) h k = absurd (omega arith)
usb_send-frame (a ∷ b ∷ c ∷ d ∷ rest) h k =
    let whole : length (take d rest) ≡ d = omega (arith, length-take d rest) in
    let count : d + 4 ≡ suc (suc (suc (suc d))) = omega arith in rw (count, whole) refl

sends-bytes_sent : (ps : List UsbPacket) → ArePackets ps → sends ps ≡ bytes_sent (map sent_as ps)
unfolding sends bytes_sent sent_as
sends-bytes_sent [] h = refl
sends-bytes_sent (p ∷ ps) (size, short, h) =
    rw (usb_send-frame p size short, sends-bytes_sent ps h) refl

length-payload : (p : UsbPacket) → data_length p < 256 → length (packet_of p).payload < 256
unfolding packet_of
length-payload p h = omega (arith, length-take (data_length p) (packet_data p))

sent_as-IsTraffic : (ps : List UsbPacket) → ArePackets ps → IsTraffic (map sent_as ps)
unfolding sent_as
sent_as-IsTraffic [] h = tt
sent_as-IsTraffic (p ∷ ps) (size, short, h) = (tt, length-payload p short, sent_as-IsTraffic ps h)

packets_sent-sent_as : (ps : List UsbPacket) → packets_sent (map sent_as ps) ≡ map packet_of ps
unfolding packets_sent sent_as
packets_sent-sent_as [] = refl
packets_sent-sent_as (p ∷ ps) = ap (◌∷◌ (packet_of p)) (packets_sent-sent_as ps)

-- Any packets that are handed to `usbSend` one after the other are received in order by a receiver
-- that waits for a start byte, each with its command and its data, and nothing else is received.
pub receive-sends :
    (r : Receiver) (ps : List UsbPacket)
    → IsIdle r
    → ArePackets ps
    → (receive r (sends ps)).1 ≡ map packet_of ps
receive-sends r ps idle h =
    ap (λ bs. (receive r bs).1) (sends-bytes_sent ps h)
    ∙ (receive-bytes_sent r (map sent_as ps) idle (sent_as-IsTraffic ps h)).0
    ∙ packets_sent-sent_as ps
