-- ===== src/Grippers/Recorder/Tests.antt =====
-- The theorems about the recorder of examples/exchange_log.cpp at concrete inputs.
use tactile_sensors.Base.{List, [], ◌++◌, ◌∷◌, ◌≡◌, ℕ, arith, false, map, refl, true}
use tactile_sensors.Grippers.Blocks.{
  activated, activation_state, empty_command, empty_status, get, go_to_enabled, object_detection,
}
use tactile_sensors.Grippers.Blocks.Faults.{controller_fault, fault_code, gripper_fault}
use tactile_sensors.Grippers.Image.{
  StampedExchange, World, count_of, new_image, publishes, calls, keeps_waiting,
}
use tactile_sensors.Grippers.Printing.{byte_text, codes}
use tactile_sensors.Grippers.Recorder.{Round, failed, run}
use tactile_sensors.Grippers.Recorder.Columns.{Line, column, table, value_in, write_row-table}
use tactile_sensors.Grippers.Recorder.Counting.{Recorded, run-Recorded}
use tactile_sensors.Grippers.Recorder.Csv.{write_header, write_row}
use tactile_sensors.Grippers.Wait.Counting.{Ticks, published, to_come}
use tactile_sensors.Grippers.Wait.{deadline_after, wait_for_exchange_count}
use tactile_sensors.Grippers.Wait.Counts.{IsSteady}

-- Two exchanges complete before the recorder wakes up, and then one.
abbrev busy : World
busy = record {
  image = new_image;
  now = 10;
  wakes =
      record {
        meanwhile =
            publishes empty_command empty_status 20 ∷ publishes empty_command empty_status 30 ∷ [];
        clock = 30;
      }
      ∷ record { meanwhile = publishes empty_command empty_status 40 ∷ []; clock = 40 }
      ∷ [];
}

busy-IsSteady : IsSteady busy
unfolding Ticks to_come published
busy-IsSteady = record { ticks = (omega arith, (omega arith, tt)); counts = omega arith }

-- The second row cannot be written.
abbrev rounds : List Round
rounds = record { stops = false; good = true } ∷ record { stops = false; good = false } ∷ []

rounds_end : ((run rounds busy).0 ≡ failed) × (map count_of (run rounds busy).1.file ≡ 2 ∷ 3 ∷ [])
unfolding run wait_for_exchange_count keeps_waiting deadline_after calls
rounds_end = (refl, refl)

run-Recorded_example : Recorded (count_of busy.image.stamped) (run rounds busy)
run-Recorded_example = run-Recorded rounds busy busy-IsSteady

abbrev exchange : StampedExchange
exchange = record {
  metadata = record { exchange_count = 12; timestamp = 150 };
  command = record empty_command { action = 9; position_request = 120 };
  status = record empty_status { gripper_status = 0x31; position = 7 };
}

-- A stream whose times all read the same.
abbrev seconds : ℕ → List ℕ
seconds ns = codes "0.0000"

row :
    write_row seconds 100 exchange ≡ codes "0.0000,12,1,1,0,0,120,0,0,1,0,3,0,0,0,0,7,0" ++ 10 ∷ []
unfolding write_row get byte_text activated go_to_enabled activation_state object_detection
    fault_code gripper_fault controller_fault
row = refl

write_row-table_example :
    Line write_header (map column (table seconds 100 exchange))
    × Line (write_row seconds 100 exchange) (map value_in (table seconds 100 exchange))
write_row-table_example = write_row-table seconds 100 exchange (λ ns. (refl, refl))
