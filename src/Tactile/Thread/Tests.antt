-- ===== src/Tactile/Thread/Tests.antt =====
-- The theorems about the thread and the link at concrete inputs.
use tactile_sensors.Base.{
  List, [], ◌*◌, ◌∷◌, ◌≡◌, ℕ, arith, false, inl, map, none, refl, replicate, some, true,
}
use tactile_sensors.Tactile.Baseline.{zero_finger}
use tactile_sensors.Tactile.Framing.{
  Receiver, UsbPacket, data_length, max_data_size, max_size, packet_of, receive,
}
use tactile_sensors.Tactile.Framing.RoundTrip.{ArePackets, receive-sends, sends}
use tactile_sensors.Tactile.Framing.Stream.{IsIdle, IsTraffic, bytes_sent}
use tactile_sensors.Tactile.Port.{IsAsked, expected, new_port}
use tactile_sensors.Tactile.Reader.{is_sensor_command}
use tactile_sensors.Tactile.Reader.Callbacks.{AreDeliveries, HasReading, reports}
use tactile_sensors.Tactile.Sensors.{Fingers}
use tactile_sensors.Tactile.Sensors.Extract.{IsWords}
use tactile_sensors.Tactile.Sensors.Packets.{AreBlocks, AreFingers, IsBlock, encoded, reading}
use tactile_sensors.Tactile.Sensors.Parse.{IsReading, heat}
use tactile_sensors.Tactile.Thread.{Thread, thread_rounds}
use tactile_sensors.Tactile.Thread.Delivered.{Message, deliveries, sent_of, thread_rounds-reports}
use tactile_sensors.Tactile.Thread.Rounds.{Arrival, AreAsked, arrived, arrives, quiet, round_of}

abbrev receiver : Receiver
receiver = record { packet = replicate max_size 0; read_so_far = 0 }

receiver-IsIdle : IsIdle receiver
unfolding data_length
receiver-IsIdle = record {
  receiving = record { room = refl; unfinished = inl (omega arith); length_byte = omega arith };
  waiting = refl;
}

abbrev version_request : UsbPacket
version_request = 0 ∷ 0 ∷ 0xE3 ∷ 0 ∷ replicate max_data_size 0

abbrev period_request : UsbPacket
period_request = 0 ∷ 0 ∷ 0x58 ∷ 1 ∷ 0x9A ∷ replicate 255 0

requests-ArePackets : ArePackets (version_request ∷ period_request ∷ [])
unfolding data_length
requests-ArePackets = (refl, omega arith, (refl, omega arith, tt))

receive-sends_example :
    (receive receiver (sends (version_request ∷ period_request ∷ []))).1
    ≡ map packet_of (version_request ∷ period_request ∷ [])
receive-sends_example =
    receive-sends receiver (version_request ∷ period_request ∷ []) receiver-IsIdle
      requests-ArePackets

abbrev fingers : Fingers
fingers = record { timestamp = 0; finger0 = zero_finger; finger1 = zero_finger }

abbrev thread : Thread
thread = record {
  port = new_port 0;
  receiver = receiver;
  reader = record {
    fingers = fingers;
    firmware_version = [];
    version_ready = false;
    calculating_baseline = false;
    samples = [];
    has_callback = true;
  };
  handled = 0;
}

abbrev messages : List Message
messages =
    record {
      noise = 1 ∷ [];
      checksum = 3;
      code = 0x58;
      blocks = reading 1 1 (heat (300 ∷ [])) ∷ [];
    }
    ∷ record { noise = []; checksum = 4; code = 0x59; blocks = reading 0 1 (heat (7 ∷ [])) ∷ [] }
    ∷ []

abbrev more : List ℕ
more = 0x58 ∷ 3 ∷ 0x65 ∷ 1 ∷ 44 ∷ 0x9A ∷ 4 ∷ 0x59 ∷ 3 ∷ 0x61 ∷ 0 ∷ 7 ∷ []

-- The first bytes come one by one, the others in one read.
abbrev rounds : List Arrival
rounds = arrives 1 0 none 1 ∷ quiet 2 ∷ arrives 0x9A 0 none 3 ∷ arrives 3 12 (some more) 9 ∷ []

fingers-AreFingers : AreFingers fingers
fingers-AreFingers = record {
  first = record {
    static_size = refl;
    dynamic_size = refl;
    acceleration_size = refl;
    rotation_size = refl;
  };
  second = record {
    static_size = refl;
    dynamic_size = refl;
    acceleration_size = refl;
    rotation_size = refl;
  };
}

rounds-AreAsked : AreAsked rounds
unfolding IsAsked
rounds-AreAsked = (tt, (tt, (omega arith, tt)))

rounds-arrived : arrived rounds ≡ bytes_sent (map sent_of messages)
unfolding expected bytes_sent encoded
rounds-arrived = refl

messages-IsTraffic : IsTraffic (map sent_of messages)
unfolding encoded
messages-IsTraffic = omega arith

messages-AreDeliveries : AreDeliveries (deliveries (λ k. 100 * k) 0 messages)
unfolding AreDeliveries AreBlocks IsBlock IsReading IsWords HasReading is_sensor_command
messages-AreDeliveries = (refl, omega arith, tt, (refl, omega arith, tt, tt))

thread_rounds-reports_example :
    (last : Thread) × (thread_rounds (λ k. 100 * k) thread (map round_of rounds)
      ≡ some (last, reports fingers (deliveries (λ k. 100 * k) 0 messages)))
thread_rounds-reports_example =
    thread_rounds-reports (λ k. 100 * k) thread messages rounds rounds-AreAsked rounds-arrived
      receiver-IsIdle messages-IsTraffic messages-AreDeliveries fingers-AreFingers
      (record { listening = refl; not_calculating = refl })
