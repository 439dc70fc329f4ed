-- ===== src/Tactile/Reader.antt =====
-- What the reader thread of tsf/sdk_cpp/RobotiqTactileSensor.cpp does with each packet it receives
-- (`threadLoop`), and how the sensor object is started and stopped. The clock, the port and the
-- user's callback are outside: the time of a packet is an argument, a call of the callback is an
-- output. The flag `m_calculatingBaseline` and the samples are what the thread shares with
-- `findBaseline`, the version slot what it shares with `getFirmwareVersion`.
pub mod Dispatch
pub mod Callbacks
use tactile_sensors.Base.{
  ℕ, length, Bool, List, [], false, if◌then◌else◌, ltb, none, some, true, ◌++◌, ◌==◌, ◌||◌, ◌∷◌,
}
use tactile_sensors.Tactile.Framing.{Packet}
use tactile_sensors.Tactile.Sensors.{Fingers, parse_sensors}

abbrev pub get_version : ℕ
get_version = 0xE3

abbrev pub sample_count : ℕ
sample_count = 1000

pub record Reader : Type 0 where
  pub fingers : Fingers
  pub firmware_version : List ℕ
  pub version_ready : Bool
  pub calculating_baseline : Bool
  pub samples : List Fingers
  pub has_callback : Bool

-- The commands whose packets carry sensor data.
unfoldable pub is_sensor_command : ℕ → Bool
is_sensor_command c = c == 0x58 || (c == 0x59 || c == 0x61)

unfoldable pub any_new : Fingers → Bool
any_new fs = fs.finger0.new_data_available || fs.finger1.new_data_available

unfoldable pub clear_flags : Fingers → Fingers
clear_flags fs = record fs {
  finger0 = record fs.finger0 { new_data_available = false };
  finger1 = record fs.finger1 { new_data_available = false };
}

-- The fingers after `parseSensors`.
unfoldable pub parsed : List ℕ → Fingers → Fingers
parsed bytes fs = elim (parse_sensors bytes fs) [ none ↦ fs | some fs' ↦ fs' ]

unfoldable pub add_sample : List Fingers → Fingers → List Fingers
add_sample samples fs = if ltb (length samples) sample_count then samples ++ (fs ∷ []) else samples

-- The rest of a packet's handling once its sensor data are in `fs`: the calls of the callback and
-- the state afterwards.
unfoldable pub dispatch : ℕ → Fingers → Reader → Reader × List Fingers
unfolding any_new clear_flags add_sample
dispatch now fs r =
    let stamped = record fs { timestamp = now } in
    let kept = record r { fingers = clear_flags stamped } in
    if any_new fs
    then (if r.calculating_baseline
        then (record kept { samples = add_sample r.samples stamped }, [])
        else if r.has_callback
        then (kept, stamped ∷ [])
        else (kept, []))
    else (record r { fingers = fs }, [])

unfoldable pub handle : ℕ → Packet → Reader → Reader × List Fingers
unfolding is_sensor_command parsed dispatch
handle now p r =
    if p.code == get_version
    then (record r { firmware_version = p.payload; version_ready = true }, [])
    else if is_sensor_command p.code
    then dispatch now (parsed p.payload r.fingers) r
    else (r, [])

-- Packets with the times at which they are complete.
unfoldable pub handle_all : List (ℕ × Packet) → Reader → Reader × List Fingers
unfolding handle
handle_all [] r = (r, [])
handle_all (p ∷ ps) r =
    let (r', calls) = handle p.0 p.1 r in
    let (last, more) = handle_all ps r' in (last, calls ++ more)
