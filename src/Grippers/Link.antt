-- ===== src/Grippers/Link.antt =====
-- The link behind a gripper: src/gripper_state.hpp and src/gripper_state.cpp, with
-- include/Robotiq/gripper/connection_state.hpp and include/Robotiq/detail/throttle.hpp. What the
-- Modbus client answers is an argument of each exchange: `none` when it throws. Commands that other
-- threads set around and during an exchange are listed in its `Cycle`.
pub mod Health
pub mod Pairing
pub mod Start
pub mod Pacing
use tactile_sensors.Base.{
  ℕ, Bool, List, Option, [], false, if◌then◌else◌, leb, none, some, true, ◌%◌, ◌++◌, ◌+◌, ◌^◌, ◌∷◌,
}
use tactile_sensors.Grippers.Image.{ProcessImage, new_image, set_command, close, publish}
use tactile_sensors.Grippers.Blocks.{GripperCommand, GripperStatus}
use tactile_sensors.Grippers.Log.{Line, info, warn, link_faulted, link_recovered}

pub data ConnectionState : Type 0 where
  disconnected connecting operational faulted : ConnectionState

unfoldable pub is_faulted : ConnectionState → Bool
is_faulted faulted = true
is_faulted _ = false

-- `kFaultThreshold` and `kInitialReadAttempts`.
abbrev pub fault_threshold : ℕ
fault_threshold = 3

abbrev pub initial_read_attempts : ℕ
initial_read_attempts = 3

pub record GripperState : Type 0 where
  pub image : ProcessImage
  pub connection : ConnectionState
  pub running : Bool
  pub consecutive_failures : ℕ

abbrev pub new_gripper : GripperState
new_gripper = record {
  image = new_image;
  connection = connecting;
  running = false;
  consecutive_failures = 0;
}

-- What one exchange meets: the commands set before it copies the block and while it is on the wire,
-- the client's answer, and the clock after it.
pub record Cycle : Type 0 where
  pub before : List GripperCommand
  pub during : List GripperCommand
  pub answer : Option GripperStatus
  pub completed_at : ℕ

unfoldable pub set_commands : GripperState → List GripperCommand → GripperState
set_commands g [] = g
set_commands g (c ∷ cs) = set_commands (record g { image = set_command g.image c }) cs

-- The part of `exchangeOnce` after the client has thrown: the counter is a uint32_t.
unfoldable pub exchange_failed : GripperState → GripperState × List Line
exchange_failed g =
    let failures = (g.consecutive_failures + 1) % 2 ^ 32 in
    let counted = record g { consecutive_failures = failures } in
    if leb fault_threshold failures
    then (
      record counted { connection = faulted },
      if is_faulted g.connection then [] else record { level = warn; message = link_faulted } ∷ [],
    )
    else (counted, [])

-- The part after the client has answered.
unfoldable pub exchange_succeeded :
    GripperState → GripperCommand → GripperStatus → ℕ → GripperState × List Line
exchange_succeeded g sent s completed_at = (
  record g {
    consecutive_failures = 0;
    connection = operational;
    image = publish g.image sent s completed_at;
  },
  if is_faulted g.connection then record { level = info; message = link_recovered } ∷ [] else [],
)

unfoldable pub exchange_once : GripperState → Cycle → GripperState × List Line
exchange_once g k =
    let copying = set_commands g k.before in
    let answered = set_commands copying k.during in
    elim k.answer [
      | none ↦ exchange_failed answered
      | some s ↦ exchange_succeeded answered copying.image.command s k.completed_at
    ]

-- Exchanges in a row, with all that they log.
unfoldable pub exchanges : GripperState → List Cycle → GripperState × List Line
exchanges g [] = (g, [])
exchanges g (k ∷ ks) =
    let (g1, lines) = exchange_once g k in let (g2, more) = exchanges g1 ks in (g2, lines ++ more)

unfoldable pub stop : GripperState → GripperState
unfolding close
stop g = record g { running = false; image = close g.image }
