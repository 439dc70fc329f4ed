-- ===== src/Tactile/Tests.antt =====
-- The theorems about the tactile sensor's SDK at concrete inputs.
use tactile_sensors.Base.{
  ℕ, suc, set, List, [], arith, drop, false, get_or, if◌then◌else◌, inl, inr, leb, length,
  length-replicate, ltb, refl, replicate, some, true, zero, ◌!=◌, ◌&&◌, ◌++◌, ◌+◌, ◌/◌, ◌==◌, ◌∷◌,
  ◌≡◌, ◌≤◌, none,
}
use tactile_sensors.Tactile.Ring.{Ring, push}
use tactile_sensors.Tactile.Ring.Queue.{IsRing, contents, contents-push}
use tactile_sensors.Tactile.Ring.Reads.{Reads, Ring-Reads}
use tactile_sensors.Tactile.Framing.{
  Receiver, receive, usb_read_byte, max_size, start_byte, data_length, header_size, max_data_size,
}
use tactile_sensors.Tactile.Framing.Receive.{IsReceiving, usb_read_byte_complete}
use tactile_sensors.Tactile.Framing.Stream.{
  Sent, IsIdle, IsTraffic, bytes_sent, packets_sent, receive-bytes_sent,
}
use tactile_sensors.Tactile.Sensors.{Fingers, parse_sensors, static_count}
use tactile_sensors.Tactile.Sensors.Extract.{IsWords}
use tactile_sensors.Tactile.Sensors.Parse.{IsReading, acceleration, clock}
use tactile_sensors.Tactile.Sensors.Packets.{
  AreBlocks, AreFingers, Block, IsBlock, encoded, foreign, reading, with_blocks,
}
use tactile_sensors.Tactile.Sensors.RoundTrip.{parse_sensors-encoded}
use tactile_sensors.Tactile.Sensors.Bounds.{parse_sensors-ends}
use tactile_sensors.Tactile.Reader.{Reader, handle, sample_count, any_new}
use tactile_sensors.Tactile.Reader.Dispatch.{AllFingers, IsReader, handle-IsReader}
use tactile_sensors.Tactile.Baseline.{averages, zero_finger}
use tactile_sensors.Tactile.Baseline.Average.{Between, averages-total, total}
use tactile_sensors.Tactile.Version.{
  get_firmware_version, last_version, reported, get_firmware_version-last,
}
use tactile_sensors.Tactile.Port.{
  IsAsked, expected, new_port, waits, fails, got, length_error, read_round, read_round-bytes,
}
use tactile_sensors.Tactile.Lifecycle.{Sensor, started, stopped, tested, happen, happen-ended}

-- A full ring of three.
abbrev ring : Ring ℕ
ring = record { buffer = 7 ∷ 8 ∷ 9 ∷ []; start = 1; count = 3 }

ring-IsRing : IsRing ring
ring-IsRing = omega arith

contents-push_example :
    (contents (push ring 5)
      ≡ (if ring.count == length ring.buffer then drop 1 (contents ring) else contents ring)
        ++ some 5 ∷ [])
    × IsRing (push ring 5)
    × (length (contents (push ring 5)) ≤ length ring.buffer)
contents-push_example = contents-push ring 5 ring-IsRing

Ring-Reads_example : Reads ring true
Ring-Reads_example = Ring-Reads ring true ring-IsRing

abbrev receiver : Receiver
receiver = record { packet = replicate max_size 0; read_so_far = 0 }

receiver-IsReceiving : IsReceiving receiver
unfolding data_length
receiver-IsReceiving = record {
  room = refl;
  unfinished = inl (omega arith);
  length_byte = omega arith;
}

abbrev before_last : Receiver
before_last = record {
  packet = 0x9A ∷ 0x55 ∷ 0x58 ∷ 1 ∷ replicate max_data_size 0;
  read_so_far = 4;
}

before_last-IsReceiving : IsReceiving before_last
unfolding data_length
before_last-IsReceiving = record {
  room = refl;
  unfinished = inr (omega arith);
  length_byte = omega arith;
}

usb_read_byte_complete_example :
    let p = set before_last.packet 4 3 in
    usb_read_byte before_last 3 ≡ (
      if 4 == 0 && 3 != start_byte
      then (false, before_last)
      else (if ltb 3 (4 + 1) && leb (data_length p + header_size) (4 + 1)
          then (true, record { packet = p; read_so_far = 0 })
          else (false, record { packet = p; read_so_far = 4 + 1 })))
usb_read_byte_complete_example = usb_read_byte_complete before_last 3 before_last-IsReceiving

abbrev stream : List Sent
stream =
    record {
      noise = 1 ∷ 2 ∷ [];
      checksum = 0;
      packet = record { code = 0x58; payload = 0x64 ∷ [] };
    }
    ∷ record { noise = []; checksum = 3; packet = record { code = 0xE3; payload = [] } }
    ∷ []

stream-IsTraffic : IsTraffic stream
stream-IsTraffic = omega arith

receive-bytes_sent_example :
    ((receive receiver (bytes_sent stream)).1 ≡ packets_sent stream)
    × IsIdle (receive receiver (bytes_sent stream)).0
receive-bytes_sent_example =
    receive-bytes_sent receiver stream (record { receiving = receiver-IsReceiving; waiting = refl })
      stream-IsTraffic

abbrev fingers : Fingers
fingers = record { timestamp = 0; finger0 = zero_finger; finger1 = zero_finger }

fingers-AreFingers : AreFingers fingers
fingers-AreFingers = record {
  first = record {
    static_size = refl;
    dynamic_size = refl;
    acceleration_size = refl;
    rotation_size = refl;
  };
  second = record {
    static_size = refl;
    dynamic_size = refl;
    acceleration_size = refl;
    rotation_size = refl;
  };
}

abbrev blocks : List Block
blocks =
    reading 1 0 (acceleration (1 ∷ 2 ∷ 0xFFFF ∷ [])) ∷ foreign 0x2C ∷ reading 0 3 (clock 5) ∷ []

blocks-AreBlocks : AreBlocks blocks
unfolding AreBlocks IsBlock IsReading IsWords
blocks-AreBlocks = omega arith

parse_sensors-encoded_example :
    parse_sensors (encoded blocks) fingers ≡ some (with_blocks fingers blocks)
parse_sensors-encoded_example =
    parse_sensors-encoded blocks fingers blocks-AreBlocks fingers-AreFingers

parse_sensors-ends_example :
    (fs : Fingers) × (parse_sensors (0x10 ∷ 1 ∷ 2 ∷ 3 ∷ []) fingers ≡ some fs) × AreFingers fs
parse_sensors-ends_example = parse_sensors-ends (0x10 ∷ 1 ∷ 2 ∷ 3 ∷ []) fingers fingers-AreFingers

abbrev reader : Reader
reader = record {
  fingers = fingers;
  firmware_version = [];
  version_ready = false;
  calculating_baseline = false;
  samples = [];
  has_callback = true;
}

reader-IsReader : IsReader reader
unfolding any_new AllFingers
reader-IsReader = record {
  quiet = refl;
  sizes = fingers-AreFingers;
  bounded = omega arith;
  sampled = tt;
}

handle-IsReader_example :
    IsReader (handle 12 (record { code = 0x61; payload = 0x60 ∷ 1 ∷ 2 ∷ [] }) reader).0
handle-IsReader_example =
    handle-IsReader 12 (record { code = 0x61; payload = 0x60 ∷ 1 ∷ 2 ∷ [] }) reader reader-IsReader

-- As many samples as `findBaseline` takes, each with 3 at taxel 2 of finger 0.
abbrev sample : Fingers
sample = record fingers {
  finger0 = record zero_finger { static_tactile = set (replicate static_count 0) 2 3 };
}

sample-Between : (n : ℕ) → Between 0 2 3 3 (replicate n sample)
unfolding Between
sample-Between zero = tt
sample-Between (suc n) = (omega arith, omega arith, omega arith, sample-Between n)

averages-total_example :
    (get_or (averages 0 (replicate sample_count sample)) 2 0
      ≡ total 0 2 (replicate sample_count sample) / 1000)
    × (3 ≤ get_or (averages 0 (replicate sample_count sample)) 2 0)
    × (get_or (averages 0 (replicate sample_count sample)) 2 0 ≤ 3)
averages-total_example =
    averages-total 0 2 3 3 (replicate sample_count sample) (omega arith)
      (length-replicate sample_count sample) (sample-Between sample_count) (omega arith)

abbrev ended : Sensor
ended = record { connected = true; running = false; joinable = true; looping = false }

happen-ended_example : (happen ended (started ∷ tested ∷ stopped ∷ started ∷ [])).looping ≡ false
happen-ended_example = happen-ended ended (started ∷ tested ∷ stopped ∷ started ∷ []) refl refl

get_firmware_version-last_example :
    (get_firmware_version true true
      ((3, record { code = 0xE3; payload = 49 ∷ 46 ∷ 48 ∷ [] }) ∷ [])
      reader).0
    ≡ reported (last_version none ((3, record { code = 0xE3; payload = 49 ∷ 46 ∷ 48 ∷ [] }) ∷ []))
get_firmware_version-last_example =
    get_firmware_version-last ((3, record { code = 0xE3; payload = 49 ∷ 46 ∷ 48 ∷ [] }) ∷ []) reader

two-IsAsked : IsAsked 2 (some (1 ∷ 2 ∷ []))
unfolding IsAsked
two-IsAsked = omega arith

read_round-bytes_example :
    let p = new_port 0 in
    let next = (read_round p (some 0x9A) (waits 2) (some (1 ∷ 2 ∷ [])) 300).1 in
    ((read_round p (some 0x9A) (waits 2) (some (1 ∷ 2 ∷ [])) 300).0
      ≡ got (expected 0x9A 2 (some (1 ∷ 2 ∷ []))))
    × (length (expected 0x9A 2 (some (1 ∷ 2 ∷ []))) ≤ next.buffer_size)
    × (p.buffer_size ≤ next.buffer_size)
    × ((read_round p (some 0x9A) (fails (2 + 2)) (some (1 ∷ 2 ∷ [])) 300).0 ≡ length_error)
    × ((read_round p (some 0x9A) (fails 1) (some (1 ∷ 2 ∷ [])) 300).0 ≡ got [])
read_round-bytes_example = read_round-bytes (new_port 0) 0x9A 2 (some (1 ∷ 2 ∷ [])) 300 two-IsAsked
