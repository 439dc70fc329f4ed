-- ===== src/Grippers/Recorder/Columns.antt =====
-- The columns of the rows of examples/exchange_log.cpp.
use tactile_sensors.Base.{
  Bool, List, [], false, ltb, true, ◌++◌, ◌-◌, ◌/◌, ◌∷◌, ◌≡◌, ◌∙◌, ℕ, ap, ap₂, refl, map, suc, zero,
  Bool-cases, arith, inl, inr, append_assoc, sym,
}
use tactile_sensors.Base.Split.{lacks, lacks-append, split, split-append, split-word}
use tactile_sensors.Grippers.Blocks.{
  GripperCommand, GripperStatus, activate, activated, activation_state, auto_release,
  auto_release_open_direction, detection_code, get, go_to, go_to_enabled, object_detection,
  state_code,
}
use tactile_sensors.Grippers.Blocks.Faults.{controller_fault, fault_code, gripper_fault}
use tactile_sensors.Grippers.Image.{ExchangeMetadata, StampedExchange}
use tactile_sensors.Grippers.Printing.{bit_text, byte_text, codes, digit}
use tactile_sensors.Grippers.Recorder.Csv.{
  comma, command_columns, decimal, metadata_columns, newline, number_text, status_columns,
  write_command, write_header, write_metadata, write_row, write_status,
}

-- A text without commas and line ends.
abbrev pub IsCell : List ℕ → Type 0
IsCell text = (lacks comma text ≡ true) × (lacks newline text ≡ true)

AreCells : List (List ℕ) → Type 0
AreCells [] = Unit
AreCells (c ∷ cs) = IsCell c × AreCells cs

-- A line of the file whose cells are the given ones.
pub record Line (text : List ℕ) (cells : List (List ℕ)) : Type 0 where
  pub line : List ℕ
  pub ends : text ≡ line ++ newline ∷ []
  pub is_line : lacks newline line ≡ true
  pub cells_of : split comma line ≡ cells

-- A part of a line.
record Part (text : List ℕ) (cells : List (List ℕ)) : Type 0 where
  is_line : lacks newline text ≡ true
  cells_of : split comma text ≡ cells

cell-Part : (text : List ℕ) → IsCell text → Part text (text ∷ [])
cell-Part text (a, b) = record { is_line = b; cells_of = split-word comma text a }

Part-append :
    (a b : List ℕ) (xs ys : List (List ℕ))
    → Part a xs
    → Part b ys
    → Part (a ++ comma ∷ b) (xs ++ ys)
Part-append a b xs ys p q = record {
  is_line = lacks-append newline a (comma ∷ b) p.is_line q.is_line;
  cells_of = split-append comma a b ∙ ap₂ (◌++◌) p.cells_of q.cells_of;
}

-- One more cell before a part.
more : (a b : List ℕ) (bs : List (List ℕ)) → IsCell a → Part b bs → Part (a ++ comma ∷ b) (a ∷ bs)
more a b bs h p = Part-append a b (a ∷ []) bs (cell-Part a h) p

Line-of_parts :
    (a b c : List ℕ) (xs ys cs : List (List ℕ))
    → Part a xs
    → Part b ys
    → Part c cs
    → Line (a ++ comma ∷ (b ++ comma ∷ (c ++ newline ∷ []))) (xs ++ (ys ++ cs))
Line-of_parts a b c xs ys cs p q r =
    let whole = Part-append a (b ++ comma ∷ c) xs (ys ++ cs) p (Part-append b c ys cs q r) in
    record {
      line = a ++ comma ∷ (b ++ comma ∷ c);
      ends =
          ap (λ t. a ++ comma ∷ t) (sym (append_assoc b (comma ∷ c) (newline ∷ [])))
          ∙ sym (append_assoc a (comma ∷ (b ++ comma ∷ c)) (newline ∷ []));
      is_line = whole.is_line;
      cells_of = whole.cells_of;
    }

bit-IsCell : (on : Bool) → IsCell (bit_text on)
bit-IsCell true = (refl, refl)
bit-IsCell false = (refl, refl)

byte-IsCell : (n : ℕ) → IsCell (byte_text n)
unfolding byte_text
byte-IsCell n = (ground arith, ground arith)

digit-IsCell : (n : ℕ) → IsCell (digit n ∷ [])
digit-IsCell n = (ground arith, ground arith)

decimal-IsCell : (fuel n : ℕ) → IsCell (decimal fuel n)
unfolding decimal
decimal-IsCell zero n = digit-IsCell n
decimal-IsCell (suc fuel) n =
    let d = digit-IsCell n in
    let m = decimal-IsCell fuel (n / 10) in
    elim (Bool-cases (ltb n 10)) [
      | inl one ↦ rw one d
      | inr several ↦ rw several (
        lacks-append comma (decimal fuel (n / 10)) (digit n ∷ []) m.0 d.0,
        lacks-append newline (decimal fuel (n / 10)) (digit n ∷ []) m.1 d.1,
      )
    ]

abbrev pub Table : Type 0
Table = List (List ℕ × List ℕ)

abbrev pub column : List ℕ × List ℕ → List ℕ
column (name, value) = name

abbrev pub value_in : List ℕ × List ℕ → List ℕ
value_in (name, value) = value

-- What each column is to show.
abbrev pub metadata_table : (ℕ → List ℕ) → ℕ → ExchangeMetadata → Table
metadata_table seconds start m =
    (codes "time_s", seconds (m.timestamp - start))
    ∷ (codes "exchange_count", number_text m.exchange_count)
    ∷ []

abbrev pub command_table : GripperCommand → Table
command_table c =
    (codes "rACT", bit_text (get c.action activate))
    ∷ (codes "rGTO", bit_text (get c.action go_to))
    ∷ (codes "rATR", bit_text (get c.action auto_release))
    ∷ (codes "rARD", bit_text (get c.action auto_release_open_direction))
    ∷ (codes "rPR", byte_text c.position_request)
    ∷ (codes "rSP", byte_text c.speed)
    ∷ (codes "rFR", byte_text c.force)
    ∷ []

abbrev pub status_table : GripperStatus → Table
status_table s =
    (codes "gACT", bit_text (activated s.gripper_status))
    ∷ (codes "gGTO", bit_text (go_to_enabled s.gripper_status))
    ∷ (codes "gSTA", byte_text (state_code (activation_state s.gripper_status)))
    ∷ (codes "gOBJ", byte_text (detection_code (object_detection s.gripper_status)))
    ∷ (codes "gFLT", byte_text (fault_code (gripper_fault s.fault_status)))
    ∷ (codes "kFLT", byte_text (controller_fault s.fault_status))
    ∷ (codes "gPR", byte_text s.position_request_echo)
    ∷ (codes "gPO", byte_text s.position)
    ∷ (codes "gCU", byte_text s.current)
    ∷ []

abbrev pub table : (ℕ → List ℕ) → ℕ → StampedExchange → Table
table seconds start e =
    metadata_table seconds start e.metadata ++ (command_table e.command ++ status_table e.status)

metadata-Part :
    (seconds : ℕ → List ℕ) (start : ℕ) (m : ExchangeMetadata)
    → ((ns : ℕ) → IsCell (seconds ns))
    → Part (write_metadata seconds start m) (map value_in (metadata_table seconds start m))
unfolding write_metadata number_text
metadata-Part seconds start m h =
    let count = number_text m.exchange_count in
    more (seconds (m.timestamp - start)) count (count ∷ []) (h (m.timestamp - start))
      (cell-Part count (decimal-IsCell 19 m.exchange_count))

command-Part : (c : GripperCommand) → Part (write_command c) (map value_in (command_table c))
unfolding write_command
command-Part c = more _ _ _ (bit-IsCell (get c.action activate)) (
    more _ _ _ (bit-IsCell (get c.action go_to)) (
      more _ _ _ (bit-IsCell (get c.action auto_release)) (
        more _ _ _ (bit-IsCell (get c.action auto_release_open_direction)) (
          more _ _ _ (byte-IsCell c.position_request)
            (more _ _ _ (byte-IsCell c.speed) (cell-Part _ (byte-IsCell c.force)))))))

status-Part : (s : GripperStatus) → Part (write_status s) (map value_in (status_table s))
unfolding write_status
status-Part s = more _ _ _ (bit-IsCell (activated s.gripper_status)) (
    more _ _ _ (bit-IsCell (go_to_enabled s.gripper_status)) (
      more _ _ _ (byte-IsCell (state_code (activation_state s.gripper_status))) (
        more _ _ _ (byte-IsCell (detection_code (object_detection s.gripper_status))) (
          more _ _ _ (byte-IsCell (fault_code (gripper_fault s.fault_status))) (
            more _ _ _ (byte-IsCell (controller_fault s.fault_status)) (
              more _ _ _ (byte-IsCell s.position_request_echo)
                (more _ _ _ (byte-IsCell s.position) (cell-Part _ (byte-IsCell s.current)))))))))

header-Line :
    (seconds : ℕ → List ℕ) (start : ℕ) (e : StampedExchange)
    → Line write_header (map column (table seconds start e))
unfolding write_header split
header-Line seconds start e = record {
  line = metadata_columns ++ comma ∷ (command_columns ++ comma ∷ status_columns);
  ends = refl;
  is_line = refl;
  cells_of = refl;
}

-- As long as the text of a time has no comma and no line end, the header and every row are a line
-- each, and each value of a row stands under the name of its column: both have one cell for each entry
-- of the table of the exchange, in its order.
pub write_row-table :
    (seconds : ℕ → List ℕ) (start : ℕ) (e : StampedExchange)
    → ((ns : ℕ) → IsCell (seconds ns))
    → Line write_header (map column (table seconds start e))
      × Line (write_row seconds start e) (map value_in (table seconds start e))
unfolding write_row
write_row-table seconds start e h = (
  header-Line seconds start e,
  Line-of_parts (write_metadata seconds start e.metadata) (write_command e.command)
      (write_status e.status) (map value_in (metadata_table seconds start e.metadata))
      (map value_in (command_table e.command)) (map value_in (status_table e.status))
      (metadata-Part seconds start e.metadata h) (command-Part e.command) (status-Part e.status),
)
