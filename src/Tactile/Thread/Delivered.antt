-- ===== src/Tactile/Thread/Delivered.antt =====
-- What the user's callback gets of the bytes that `threadLoop` of tsf/sdk_cpp/RobotiqTactileSensor.cpp
-- reads.
use tactile_sensors.Base.{List, [], ap, map, refl, some, ◌+◌, ◌∙◌, ◌∷◌, ◌≡◌, ℕ}
use tactile_sensors.Tactile.Framing.Stream.{
  IsIdle, IsTraffic, Sent, bytes_sent, packets_sent, receive-bytes_sent,
}
use tactile_sensors.Tactile.Reader.{handle_all}
use tactile_sensors.Tactile.Reader.Callbacks.{
  AreDeliveries, Delivery, Listens, delivered, handle_all-reports, reports,
}
use tactile_sensors.Tactile.Sensors.Packets.{AreFingers, Block, encoded}
use tactile_sensors.Tactile.Thread.{Thread, take_bytes, thread_rounds}
use tactile_sensors.Tactile.Thread.Rounds.{
  Arrival, AreAsked, arrived, calls-take_bytes, round_of, stamped, thread_rounds-arrived,
}

-- A packet of readings on the wire, with what goes before it and its checksum.
pub record Message : Type 0 where
  pub noise : List ℕ
  pub checksum : ℕ
  pub code : ℕ
  pub blocks : List Block

abbrev pub sent_of : Message → Sent
sent_of m = record {
  noise = m.noise;
  checksum = m.checksum;
  packet = record { code = m.code; payload = encoded m.blocks };
}

-- The packets with the times at which they are handled.
abbrev pub deliveries : (ℕ → ℕ) → ℕ → List Message → List Delivery
deliveries clock k [] = []
deliveries clock k (m ∷ ms) =
    record { time = clock k; code = m.code; blocks = m.blocks } ∷ deliveries clock (k + 1) ms

stamped-deliveries :
    (clock : ℕ → ℕ) (k : ℕ) (ms : List Message)
    → stamped clock k (packets_sent (map sent_of ms)) ≡ map delivered (deliveries clock k ms)
unfolding stamped packets_sent delivered
stamped-deliveries clock k [] = refl
stamped-deliveries clock k (m ∷ ms) =
    ap (◌∷◌ (clock k, record { code = m.code; payload = encoded m.blocks }))
      (stamped-deliveries clock (k + 1) ms)

-- From the wire to the user: when the bytes that the rounds of the thread read, however they are
-- divided, are packets of readings with anything but start bytes between them, a listening thread
-- that waits for a packet does not throw, and calls the callback once for each packet, in order, with
-- the readings of that packet on top of those before and the time at which it was handled.
pub thread_rounds-reports :
    (clock : ℕ → ℕ) (t : Thread) (ms : List Message) (rounds : List Arrival)
    → AreAsked rounds
    → arrived rounds ≡ bytes_sent (map sent_of ms)
    → IsIdle t.receiver
    → IsTraffic (map sent_of ms)
    → AreDeliveries (deliveries clock t.handled ms)
    → AreFingers t.reader.fingers
    → Listens t.reader
    → (last : Thread) × (thread_rounds clock t (map round_of rounds)
        ≡ some (last, reports t.reader.fingers (deliveries clock t.handled ms)))
thread_rounds-reports clock t ms rounds asked bytes idle traffic readings fine listens =
    let (last, e) = thread_rounds-arrived clock t rounds asked in
    (
      last,
      e
          ∙ ap (λ ds. some (last, (take_bytes clock t ds).1)) bytes
          ∙ ap (λ calls. some (last, calls))
              (calls-take_bytes clock t (bytes_sent (map sent_of ms))
                ∙ ap (λ ps. (handle_all (stamped clock t.handled ps) t.reader).1)
                    (receive-bytes_sent t.receiver (map sent_of ms) idle traffic).0
                ∙ ap (λ ps. (handle_all ps t.reader).1) (stamped-deliveries clock t.handled ms)
                ∙ handle_all-reports (deliveries clock t.handled ms) t.reader readings fine
                    listens),
    )
