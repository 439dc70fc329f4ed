-- ===== src/Grippers/Recorder/Csv.antt =====
-- The rows of examples/exchange_log.cpp, as lists of ASCII codes. How the stream prints a double is a
-- parameter: `seconds` is the text of a time in nanoseconds, with four decimals.
use tactile_sensors.Base.{List, [], if◌then◌else◌, ltb, ◌++◌, ◌-◌, ◌/◌, ◌∷◌, ℕ, suc, zero}
use tactile_sensors.Grippers.Blocks.{
  GripperCommand, GripperStatus, activate, activated, activation_state, auto_release,
  auto_release_open_direction, detection_code, get, go_to, go_to_enabled, object_detection,
  state_code,
}
use tactile_sensors.Grippers.Blocks.Faults.{controller_fault, fault_code, gripper_fault}
use tactile_sensors.Grippers.Image.{ExchangeMetadata, StampedExchange}
use tactile_sensors.Grippers.Printing.{bit_text, byte_text, codes, digit}

abbrev pub comma : ℕ
comma = b','

abbrev pub newline : ℕ
newline = 10

abbrev pub metadata_columns : List ℕ
metadata_columns = codes "time_s,exchange_count"

abbrev pub command_columns : List ℕ
command_columns = codes "rACT,rGTO,rATR,rARD,rPR,rSP,rFR"

abbrev pub status_columns : List ℕ
status_columns = codes "gACT,gGTO,gSTA,gOBJ,gFLT,kFLT,gPR,gPO,gCU"

unfoldable pub write_header : List ℕ
write_header =
    metadata_columns ++ comma ∷ (command_columns ++ comma ∷ (status_columns ++ newline ∷ []))

-- A number in decimal, of as many digits as the fuel says and one more at most.
unfoldable pub decimal : ℕ → ℕ → List ℕ
decimal zero n = digit n ∷ []
decimal (suc fuel) n =
    let more = decimal fuel (n / 10) in if ltb n 10 then digit n ∷ [] else more ++ digit n ∷ []

-- A uint64_t has 20 digits at most.
unfoldable pub number_text : ℕ → List ℕ
unfolding decimal
number_text n = decimal 19 n

unfoldable pub write_metadata : (ℕ → List ℕ) → ℕ → ExchangeMetadata → List ℕ
unfolding number_text
write_metadata seconds start m =
    seconds (m.timestamp - start) ++ comma ∷ number_text m.exchange_count

unfoldable pub write_command : GripperCommand → List ℕ
write_command c =
    bit_text (get c.action activate)
    ++ comma
      ∷ (bit_text (get c.action go_to)
          ++ comma
            ∷ (bit_text (get c.action auto_release)
                ++ comma
                  ∷ (bit_text (get c.action auto_release_open_direction)
                      ++ comma
                        ∷ (byte_text c.position_request
                            ++ comma ∷ (byte_text c.speed ++ comma ∷ byte_text c.force)))))

unfoldable pub write_status : GripperStatus → List ℕ
write_status s =
    let flags = s.gripper_status in
    bit_text (activated flags)
    ++ comma
      ∷ (bit_text (go_to_enabled flags)
          ++ comma
            ∷ (byte_text (state_code (activation_state flags))
                ++ comma
                  ∷ (byte_text (detection_code (object_detection flags))
                      ++ comma
                        ∷ (byte_text (fault_code (gripper_fault s.fault_status))
                            ++ comma
                              ∷ (byte_text (controller_fault s.fault_status)
                                  ++ comma
                                    ∷ (byte_text s.position_request_echo
                                        ++ comma
                                          ∷ (byte_text s.position
                                              ++ comma ∷ byte_text s.current)))))))

unfoldable pub write_row : (ℕ → List ℕ) → ℕ → StampedExchange → List ℕ
unfolding write_metadata write_command write_status
write_row seconds start e =
    write_metadata seconds start e.metadata
    ++ comma ∷ (write_command e.command ++ comma ∷ (write_status e.status ++ newline ∷ []))
