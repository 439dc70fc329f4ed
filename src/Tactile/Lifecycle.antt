-- ===== src/Tactile/Lifecycle.antt =====
-- The life of the reader thread: the constructor, `start`, `stop`, the destructor and the loop
-- condition of `threadLoop` in tsf/sdk_cpp/RobotiqTactileSensor.cpp. `joinable` is that of the
-- `std::thread`: it stays set when the function that the thread runs has returned, until a join.
use tactile_sensors.Base.{
  Bool, true, false, Bool-cases, List, [], if◌then◌else◌, inl, inr, not, refl, ◌&&◌, ◌∷◌, ◌≡◌,
  Option, none, some,
}

pub record Sensor : Type 0 where
  pub connected : Bool
  pub running : Bool
  pub joinable : Bool
  -- The thread is in its loop.
  pub looping : Bool

-- Why the constructor leaves the sensor unconnected.
pub data OpenError : Type 0 where
  port_not_found port_not_opened : OpenError

-- The constructor; the arguments are whether libserialport finds the port, and whether it opens it.
unfoldable pub new_sensor : Bool → Bool → Sensor × Option OpenError
new_sensor found opened =
    let unconnected : Sensor = record {
      connected = false;
      running = false;
      joinable = false;
      looping = false;
    } in
    if not found
    then (unconnected, some port_not_found)
    else if not opened
    then (unconnected, some port_not_opened)
    else (record { connected = true; running = true; joinable = true; looping = true }, none)

unfoldable pub stop : Sensor → Sensor
stop s = record s { running = false }

unfoldable pub start : Sensor → Sensor
start s =
    if not s.running && s.connected
    then (if s.joinable
        then record s { running = true }
        else record s { running = true; joinable = true; looping = true })
    else s

-- The thread at the head of its loop.
unfoldable pub loop_test : Sensor → Sensor
loop_test s = if s.looping && not s.running then record s { looping = false } else s

-- The destructor joins the thread, which has seen that it is to stop.
unfoldable pub destroy : Sensor → Sensor
destroy s =
    if s.joinable
    then record s { running = false; joinable = false; looping = false }
    else record s { running = false }

pub data Event : Type 0 where
  started stopped tested : Event

unfoldable pub happen : Sensor → List Event → Sensor
unfolding start stop loop_test
happen s [] = s
happen s (started ∷ es) = happen (start s) es
happen s (stopped ∷ es) = happen (stop s) es
happen s (tested ∷ es) = happen (loop_test s) es

start-ended :
    (s : Sensor)
    → s.joinable ≡ true
    → s.looping ≡ false
    → ((start s).joinable ≡ true) × ((start s).looping ≡ false)
unfolding start
start-ended s j l = elim (Bool-cases (not s.running && s.connected)) [
  | inl e ↦ rw (e, j) (refl, l)
  | inr e ↦ rw e (j, l)
]

loop_test-ended :
    (s : Sensor)
    → s.joinable ≡ true
    → s.looping ≡ false
    → ((loop_test s).joinable ≡ true) × ((loop_test s).looping ≡ false)
unfolding loop_test
loop_test-ended s j l = rw l (j, refl)

-- Once the thread has left its loop and nobody has joined it, no sequence of starts and stops gets
-- the sensor to read again.
pub happen-ended :
    (s : Sensor) (es : List Event)
    → s.joinable ≡ true
    → s.looping ≡ false
    → (happen s es).looping ≡ false
unfolding happen stop
happen-ended s [] j l = l
happen-ended s (started ∷ es) j l =
    let next = start-ended s j l in happen-ended (start s) es next.0 next.1
happen-ended s (stopped ∷ es) j l = happen-ended (stop s) es j l
happen-ended s (tested ∷ es) j l =
    let next = loop_test-ended s j l in happen-ended (loop_test s) es next.0 next.1
