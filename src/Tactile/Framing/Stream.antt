-- ===== src/Tactile/Framing/Stream.antt =====
-- A stream of packets, with anything but a start byte between them, through `usbReadByte` of
-- tsf/sdk_cpp/RobotiqTactileSensor.cpp.
use tactile_sensors.Base.{ℕ, List, [], ap, inl, arith, length, refl, ◌++◌, ◌<◌, ◌∙◌, ◌∷◌, ◌≡◌}
use tactile_sensors.Base.Store.{length-store}
use tactile_sensors.Tactile.Framing.Receive.{IsReceiving}
use tactile_sensors.Tactile.Framing.{Receiver, receive, Packet, UsbPacket, data_length, max_size}
use tactile_sensors.Tactile.Framing.Frame.{
  frame, filled, IsNoise, receive-append, receive-frame_payload, receive-nil, receive-noise,
}

-- What goes over the wire before one packet, and the packet with its checksum.
pub record Sent : Type 0 where
  pub noise : List ℕ
  pub checksum : ℕ
  pub packet : Packet

unfoldable pub bytes_sent : List Sent → List ℕ
bytes_sent [] = []
bytes_sent (s ∷ ss) = s.noise ++ frame s.checksum s.packet ++ bytes_sent ss

unfoldable pub packets_sent : List Sent → List Packet
packets_sent [] = []
packets_sent (s ∷ ss) = s.packet ∷ packets_sent ss

-- No start byte between packets, and payloads that the length byte can announce.
abbrev pub IsTraffic : List Sent → Type 0
IsTraffic [] = Unit {0}
IsTraffic (s ∷ ss) = IsNoise s.noise × (length s.packet.payload < 256) × IsTraffic ss

-- A receiver that waits for a start byte.
pub record IsIdle (r : Receiver) : Type 0 where
  pub receiving : IsReceiving r
  pub waiting : r.read_so_far ≡ 0

receive-one :
    (p : UsbPacket) (s : Sent)
    → length p ≡ max_size
    → data_length p < 256
    → IsNoise s.noise
    → length s.packet.payload < 256
    → (q : UsbPacket) × (length q ≡ max_size)
      × (data_length q < 256)
      × (receive (record { packet = p; read_so_far = 0 }) (s.noise ++ frame s.checksum s.packet)
          ≡ (record { packet = q; read_so_far = 0 }, s.packet ∷ []))
unfolding data_length
receive-one [] s size byte quiet short = absurd (omega arith)
receive-one (a ∷ []) s size byte quiet short = absurd (omega arith)
receive-one (a ∷ b ∷ []) s size byte quiet short = absurd (omega arith)
receive-one (a ∷ b ∷ c ∷ []) s size byte quiet short = absurd (omega arith)
receive-one (a ∷ b ∷ c ∷ d ∷ rest) s size byte quiet short = (
  filled s.checksum s.packet rest,
  omega (arith, length-store rest 0 s.packet.payload),
  short,
  receive-append (record { packet = a ∷ b ∷ c ∷ d ∷ rest; read_so_far = 0 }) s.noise
        (frame s.checksum s.packet)
      ∙ rw (receive-noise (a ∷ b ∷ c ∷ d ∷ rest) s.noise quiet) (
          receive-frame_payload a b c d rest s.checksum s.packet.code s.packet.payload (omega arith)
            byte short),
)

receive-sent :
    (p : UsbPacket) (ss : List Sent)
    → length p ≡ max_size
    → data_length p < 256
    → IsTraffic ss
    → (q : UsbPacket) × (length q ≡ max_size)
      × (data_length q < 256)
      × (receive (record { packet = p; read_so_far = 0 }) (bytes_sent ss)
          ≡ (record { packet = q; read_so_far = 0 }, packets_sent ss))
unfolding bytes_sent packets_sent
receive-sent p [] size byte v =
    (p, size, byte, receive-nil (record { packet = p; read_so_far = 0 }))
receive-sent p (s ∷ ss) size byte v =
    let (q, size_q, byte_q, one) = receive-one p s size byte v.0 v.1 in
    let (q', size_q', byte_q', more) = receive-sent q ss size_q byte_q v.2 in
    let start : Receiver = record { packet = p; read_so_far = 0 } in
    let first = s.noise ++ frame s.checksum s.packet in
    (q', size_q', byte_q', receive-append start first (bytes_sent ss) ∙ rw (one, more) refl)

-- Any packets sent one after the other, whatever their checksums, and with any bytes between them
-- but start bytes, are received in order, each with its command and all of its data, and nothing
-- else; the receiver then waits for the next start byte.
pub receive-bytes_sent :
    (r : Receiver) (ss : List Sent)
    → IsIdle r
    → IsTraffic ss
    → ((receive r (bytes_sent ss)).1 ≡ packets_sent ss) × IsIdle (receive r (bytes_sent ss)).0
receive-bytes_sent r ss idle v =
    let (q, size, byte, e) =
      receive-sent r.packet ss idle.receiving.room idle.receiving.length_byte v in
    let same : r ≡ record { packet = r.packet; read_so_far = 0 } =
      ap (λ n. record { packet = r.packet; read_so_far = n }) idle.waiting in
    rw (same, e)
      (
        refl,
        record {
          receiving = record { room = size; unfinished = inl (omega arith); length_byte = byte };
          waiting = refl;
        },
      )
