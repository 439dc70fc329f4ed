-- ===== src/Grippers/Printing/Tests.antt =====
-- The theorem about the texts of blocks at a concrete input, and one text in full.
use tactile_sensors.Base.{◌++◌, ◌∷◌, ◌≡◌, refl}
use tactile_sensors.Grippers.Blocks.{
  GripperCommand, GripperStatus, activate, activated, empty_command, empty_status, get,
}
use tactile_sensors.Grippers.Printing.{bit_text, codes, command_text, status_text}
use tactile_sensors.Grippers.Printing.Fields.{
  command_fields, fault_fields, flags_fields, gripper_fault_text, tail_fields, words-texts,
}
use tactile_sensors.Grippers.Printing.Words.{field, fields, words}

abbrev command : GripperCommand
command = record empty_command { action = 9; position_request = 120; speed = 255 }

abbrev status : GripperStatus
status = record empty_status { gripper_status = 0x31; fault_status = 0x05; position = 7 }

command_text_full : command_text command ≡ codes "rACT=1 rGTO=1 rATR=0 rARD=0 rPR=120 rSP=255 rFR=0"
unfolding command_text get
command_text_full = refl

words-texts_example :
    (words (command_text command)
      ≡ field (codes "rACT") (bit_text (get command.action activate))
        ∷ fields (command_fields command))
    × (words (status_text status)
        ≡ (field (codes "gACT") (bit_text (activated status.gripper_status))
            ∷ fields (flags_fields status.gripper_status))
          ++ (field (codes "gFLT") (gripper_fault_text status.fault_status)
              ∷ fields (fault_fields status.fault_status))
          ++ fields (tail_fields status))
words-texts_example = words-texts command status
