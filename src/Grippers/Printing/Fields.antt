-- ===== src/Grippers/Printing/Fields.antt =====
-- The texts of the blocks of src/to_string.cpp: which fields they show, and in what order.
use tactile_sensors.Base.{List, [], ap, ap₂, refl, ◌++◌, ◌∷◌, ◌≡◌, ◌∙◌, ℕ}
use tactile_sensors.Grippers.Blocks.{
  GripperCommand, GripperStatus, activate, activated, activation_state, auto_release,
  auto_release_open_direction, detection_code, get, go_to, go_to_enabled, object_detection,
  state_code,
}
use tactile_sensors.Grippers.Blocks.Controller.{controller_fault_of}
use tactile_sensors.Grippers.Blocks.Faults.{controller_fault, fault_code, gripper_fault}
use tactile_sensors.Grippers.Printing.{
  append_bit, append_byte, append_enum, bit_text, byte_text, codes, command_text, controller_name,
  detection_name, enum_text, fault_name, fault_text, flags_text, state_name, status_text,
}
use tactile_sensors.Grippers.Printing.Plain.{
  bit_plain, byte_plain, enum_plain, state_plain, detection_plain, fault_plain, controller_plain,
}
use tactile_sensors.Grippers.Printing.Words.{
  FieldList, append_fields, field, fields, words, words-append, words-append_fields, cons-ne-nil,
  words-fields,
}

-- The fields that a command's text is to show.
abbrev pub command_fields : GripperCommand → FieldList
command_fields c =
    (codes "rGTO", bit_text (get c.action go_to))
    ∷ (codes "rATR", bit_text (get c.action auto_release))
    ∷ (codes "rARD", bit_text (get c.action auto_release_open_direction))
    ∷ (codes "rPR", byte_text c.position_request)
    ∷ (codes "rSP", byte_text c.speed)
    ∷ (codes "rFR", byte_text c.force)
    ∷ []

abbrev pub flags_fields : ℕ → FieldList
flags_fields flags =
    (codes "gGTO", bit_text (go_to_enabled flags))
    ∷ (
      codes "gSTA",
      enum_text (state_name (activation_state flags)) (state_code (activation_state flags)),
    )
    ∷ (
      codes "gOBJ",
      enum_text (detection_name (object_detection flags)) (detection_code (object_detection flags)),
    )
    ∷ []

abbrev pub fault_fields : ℕ → FieldList
fault_fields bits =
    (
      codes "kFLT",
      enum_text (controller_name (controller_fault_of (controller_fault bits)))
          (controller_fault bits),
    )
    ∷ []

abbrev pub tail_fields : GripperStatus → FieldList
tail_fields s =
    (codes "gPR", byte_text s.position_request_echo)
    ∷ (codes "gPO", byte_text s.position)
    ∷ (codes "gCU", byte_text s.current)
    ∷ []

words-command_text :
    (c : GripperCommand)
    → words (command_text c)
      ≡ field (codes "rACT") (bit_text (get c.action activate)) ∷ fields (command_fields c)
unfolding command_text append_bit append_byte append_fields
words-command_text c =
    words-fields (codes "rACT") (bit_text (get c.action activate)) (command_fields c) (
      refl,
      bit_plain (get c.action activate),
      (
        refl,
        bit_plain (get c.action go_to),
        (
          refl,
          bit_plain (get c.action auto_release),
          (
            refl,
            bit_plain (get c.action auto_release_open_direction),
            (
              refl,
              byte_plain c.position_request,
              (refl, byte_plain c.speed, (refl, byte_plain c.force, tt)),
            ),
          ),
        ),
      ),
    )

words-flags_text :
    (flags : ℕ)
    → words (flags_text flags)
      ≡ field (codes "gACT") (bit_text (activated flags)) ∷ fields (flags_fields flags)
unfolding flags_text append_bit append_enum append_fields
words-flags_text flags =
    words-fields (codes "gACT") (bit_text (activated flags)) (flags_fields flags) (
      refl,
      bit_plain (activated flags),
      (
        refl,
        bit_plain (go_to_enabled flags),
        (
          refl,
          enum_plain (state_name (activation_state flags)) (state_code (activation_state flags))
              (state_plain (activation_state flags)),
          (
            refl,
            enum_plain (detection_name (object_detection flags))
                (detection_code (object_detection flags))
                (detection_plain (object_detection flags)),
            tt,
          ),
        ),
      ),
    )

abbrev pub gripper_fault_text : ℕ → List ℕ
gripper_fault_text bits =
    enum_text (fault_name (gripper_fault bits)) (fault_code (gripper_fault bits))

words-fault_text :
    (bits : ℕ)
    → words (fault_text bits)
      ≡ field (codes "gFLT") (gripper_fault_text bits) ∷ fields (fault_fields bits)
unfolding fault_text append_enum append_fields
words-fault_text bits = words-fields (codes "gFLT") (gripper_fault_text bits) (fault_fields bits) (
  refl,
  enum_plain (fault_name (gripper_fault bits)) (fault_code (gripper_fault bits))
      (fault_plain (gripper_fault bits)),
  (
    refl,
    enum_plain (controller_name (controller_fault_of (controller_fault bits)))
        (controller_fault bits) (controller_plain (controller_fault_of (controller_fault bits))),
    tt,
  ),
)

words-status_text :
    (s : GripperStatus)
    → words (status_text s)
      ≡ words (flags_text s.gripper_status)
        ++ words (fault_text s.fault_status)
        ++ fields (tail_fields s)
unfolding status_text append_byte append_fields
words-status_text s =
    words-append_fields (flags_text s.gripper_status ++ b' ' ∷ fault_text s.fault_status)
      (tail_fields s) (cons-ne-nil (flags_text s.gripper_status) (fault_text s.fault_status) b' ')
      (
        refl,
        byte_plain s.position_request_echo,
        (refl, byte_plain s.position, (refl, byte_plain s.current, tt)),
      )
    ∙ ap (λ ws. ws ++ fields (tail_fields s))
        (words-append (flags_text s.gripper_status) (fault_text s.fault_status))

-- Split at its spaces, the text of a command is its seven fields, each "name=value", in the order of
-- the manual, and the text of a status its nine fields, whatever the blocks hold.
pub words-texts :
    (c : GripperCommand) (s : GripperStatus)
    → (words (command_text c)
        ≡ field (codes "rACT") (bit_text (get c.action activate)) ∷ fields (command_fields c))
      × (words (status_text s)
          ≡ (field (codes "gACT") (bit_text (activated s.gripper_status))
              ∷ fields (flags_fields s.gripper_status))
            ++ (field (codes "gFLT") (gripper_fault_text s.fault_status)
                ∷ fields (fault_fields s.fault_status))
            ++ fields (tail_fields s))
words-texts c s = (
  words-command_text c,
  words-status_text s
      ∙ ap₂ (λ a b. a ++ b ++ fields (tail_fields s)) (words-flags_text s.gripper_status)
          (words-fault_text s.fault_status),
)
