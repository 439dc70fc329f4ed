-- ===== src/Grippers/Tests.antt =====
-- The theorems about the gripper driver at concrete inputs.
use tactile_sensors.Base.{
  [], arith, if◌then◌else◌, inl, leb, length, none, refl, replicate, some, ◌+◌, ◌∷◌, ◌≡◌,
}
use tactile_sensors.Grippers.Ticks.{IsTicks, blocking_ticks, blocking_ticks-IsTicks}
use tactile_sensors.Grippers.FakeServer.{Server}
use tactile_sensors.Grippers.FakeServer.Callbacks.{Answered, Server-Answered}
use tactile_sensors.Grippers.Wait.{deadline_after, set_command_and_wait_for_exchange}
use tactile_sensors.Grippers.Activation.{activate_gripper, recover_from_fault}
use tactile_sensors.Grippers.Wait.Outcome.{Waited, set_command_and_wait_for_exchange-Waited}
use tactile_sensors.Grippers.Wait.Counting.{Ticks, to_come, published}
use tactile_sensors.Grippers.Activation.Commands.{LeavesCommand, procedures-LeavesCommand}
use tactile_sensors.Grippers.Wait.Counts.{IsSteady, overtaken}
use tactile_sensors.Grippers.Activation.Sole.{IsSole, NoSets}
use tactile_sensors.Grippers.Link.Pacing.{Turn}
use tactile_sensors.Grippers.Blocks.{same_command, GripperCommand, empty_command, empty_status}
use tactile_sensors.Grippers.FakeGripper.{RegisterModel, fresh_model, read, write}
use tactile_sensors.Grippers.FakeGripper.Protocol.{Answers, IsCommand, IsTracked, reply, sent}
use tactile_sensors.Grippers.Client.{Stack, done, ok, exchange}
use tactile_sensors.Grippers.Client.OnFake.{Serves, exchange-Answers}
use tactile_sensors.Grippers.Image.{
  keeps_waiting, new_image, Wake, World, calls, publish, publishes, sets, returned, sync,
}
use tactile_sensors.Grippers.Link.{
  new_gripper, Cycle, operational, faulted, fault_threshold, exchanges,
}
use tactile_sensors.Grippers.Link.Health.{failing, replay, connection-exchanges, replay-exchanges}
use tactile_sensors.Grippers.Link.Pairing.{image_after, image-exchanges}
use tactile_sensors.Base.{true, ◌==◌}
use tactile_sensors.Grippers.Activation.{finished, timed_out}
use tactile_sensors.Grippers.Activation.OnFake.{ActivatedBy, perform-with_device}
use tactile_sensors.Grippers.Activation.WithDevice.{perform, recovery, with_device}
use tactile_sensors.Grippers.Activation.Overflow.{procedures-overflow}

-- rACT and rGTO set, and a move to 200.
abbrev move : GripperCommand
move = record empty_command { action = 9; position_request = 200; speed = 255; force = 150 }

abbrev fresh_model-IsTracked : IsTracked fresh_model
fresh_model-IsTracked = record { tracked = refl }

move-IsCommand : IsCommand move
move-IsCommand = omega arith

-- Two exchanges: one that the client does not answer, and one that it does while a new command is
-- set.
abbrev lost : Cycle
lost = record { before = move ∷ []; during = []; answer = none; completed_at = 10 }

abbrev served : Cycle
served = record {
  before = [];
  during = empty_command ∷ [];
  answer = some (record empty_status { gripper_status = 0x31; position_request_echo = 40 });
  completed_at = 20;
}

-- A stack that carries each transaction to the device.
abbrev fake_stack : Stack RegisterModel
fake_stack = record {
  read_holding_registers =
      λ m address quantity. (done (read m address quantity (replicate quantity 0)).0, m);
  write_multiple_registers =
      λ m address values. (done tt, (write m address (length values) values).0);
  read_write_registers = λ m from quantity to values.
      let m' = (write m to (length values) values).0 in
      (done (read m' from quantity (replicate quantity 0)).0, m');
}

fake_stack-Serves : Serves fake_stack
fake_stack-Serves = record { read_write = λ m from to values covered covered'. refl }

exchange-Answers_example :
    (exchange fake_stack fresh_model move
      ≡ (ok (reply (sent fresh_model move)), sent fresh_model move))
    × Answers fresh_model move (reply (sent fresh_model move))
    × IsTracked (sent fresh_model move)
exchange-Answers_example =
    exchange-Answers fake_stack fresh_model move fake_stack-Serves fresh_model-IsTracked
      move-IsCommand

connection-exchanges_example :
    (exchanges
      (record new_gripper { connection = operational })
      (lost ∷ lost ∷ lost ∷ [])).0.connection
    ≡ (if leb fault_threshold (failing 0 (lost ∷ lost ∷ lost ∷ [])) then faulted else operational)
connection-exchanges_example =
    connection-exchanges (record new_gripper { connection = operational }) (lost ∷ lost ∷ lost ∷ [])
      refl refl

replay-exchanges_example :
    replay operational
      (exchanges
        (record new_gripper { connection = operational })
        (lost ∷ lost ∷ lost ∷ served ∷ [])).1
    ≡ some
        (exchanges
          (record new_gripper { connection = operational })
          (lost ∷ lost ∷ lost ∷ served ∷ [])).0.connection
replay-exchanges_example =
    replay-exchanges (record new_gripper { connection = operational })
      (lost ∷ lost ∷ lost ∷ served ∷ []) (inl refl)

image-exchanges_example :
    (exchanges new_gripper (served ∷ lost ∷ served ∷ [])).0.image
    ≡ image_after new_image (served ∷ lost ∷ served ∷ [])
image-exchanges_example = image-exchanges new_gripper (served ∷ lost ∷ served ∷ [])

-- Rounds around them.
abbrev turn : Cycle → Turn
turn k = record { cycle = k; throttled_at = k.completed_at + 1; paced_at = k.completed_at + 2 }

-- A thread that waits for the first exchange, which comes with the second wake-up.
abbrev quiet_wake : Wake
quiet_wake = record { meanwhile = []; clock = 20 }

abbrev exchange_wake : Wake
exchange_wake = record { meanwhile = publishes move empty_status 30 ∷ []; clock = 30 }

abbrev before_exchange : World
before_exchange = record { image = new_image; now = 10; wakes = quiet_wake ∷ exchange_wake ∷ [] }

abbrev after_exchange : World
after_exchange = record { image = publish new_image move empty_status 30; now = 30; wakes = [] }

wakes_up : sync before_exchange 0 100 ≡ returned after_exchange.image.stamped after_exchange
unfolding sync keeps_waiting calls publish
wakes_up = refl

overtaken-IsSteady : IsSteady (overtaken before_exchange (sets empty_command ∷ []))
unfolding Ticks to_come published
overtaken-IsSteady = record {
  ticks = (omega arith, (omega arith, (omega arith, tt)));
  counts = omega arith;
}

set_command_and_wait_for_exchange-Waited_example :
    Waited
      (λ e. same_command e.command move)
      1
      (deadline_after 10 5)
      (set_command_and_wait_for_exchange before_exchange (sets empty_command ∷ []) move 5)
set_command_and_wait_for_exchange-Waited_example =
    set_command_and_wait_for_exchange-Waited before_exchange (sets empty_command ∷ []) move 5
      overtaken-IsSteady

before_exchange-IsSole : IsSole before_exchange.wakes
unfolding IsSole NoSets
before_exchange-IsSole = (tt, (tt, tt))

procedures-LeavesCommand_example :
    LeavesCommand before_exchange.image.command (activate_gripper before_exchange 40)
    × LeavesCommand before_exchange.image.command (recover_from_fault before_exchange 40)
procedures-LeavesCommand_example =
    procedures-LeavesCommand before_exchange 40 before_exchange-IsSole

abbrev server : Server
server = record { model = fresh_model; from_client = []; to_client = 1 ∷ 3 ∷ 6 ∷ [] }

Server-Answered_example : Answered server 0x03E8 3 (7 ∷ 7 ∷ 7 ∷ 7 ∷ []) (0x0900 ∷ 200 ∷ 0xFF96 ∷ [])
Server-Answered_example =
    Server-Answered server 0x03E8 3 (7 ∷ 7 ∷ 7 ∷ 7 ∷ []) (0x0900 ∷ 200 ∷ 0xFF96 ∷ []) (omega arith)
      (omega arith) (omega arith) fresh_model-IsTracked

blocking_ticks-IsTicks_example :
    IsTicks 100 0xFFFFFFFF 15_000_000 (blocking_ticks 100 0xFFFFFFFF 15_000_000)
blocking_ticks-IsTicks_example = blocking_ticks-IsTicks 100 0xFFFFFFFF 15_000_000 (omega arith)

-- A device that was activated and has a fault.
abbrev faulty_model : RegisterModel
faulty_model = record {
  registers = λ r. if r == 2001 then 0x0D00 else 0;
  previous_activate_bit = true;
  activation_done = true;
}

faulty_model-IsTracked : IsTracked faulty_model
faulty_model-IsTracked = record { tracked = refl }

perform-with_device_example :
    (v : World) × (with_device
        (perform recovery 40)
        (record new_image { command = move })
        10
        faulty_model
        []
        (20 ∷ 30 ∷ 40 ∷ 50 ∷ [])
      ≡ some (returned finished v))
    × ActivatedBy (record new_image { command = move }) 40 v
perform-with_device_example =
    perform-with_device recovery (record new_image { command = move }) faulty_model 10 40 20 30 40
      (50 ∷ []) refl (omega arith) faulty_model-IsTracked move-IsCommand tt (omega arith)
      (omega arith) (omega arith) (omega arith) (omega arith)

procedures-overflow_example :
    (activate_gripper before_exchange 9_300_000_000_000 ≡ some (returned timed_out before_exchange))
    × (recover_from_fault before_exchange 9_300_000_000_000
        ≡ some (returned timed_out before_exchange))
procedures-overflow_example =
    procedures-overflow before_exchange 9_300_000_000_000 (omega arith) (omega arith) (omega arith)
