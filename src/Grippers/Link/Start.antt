-- ===== src/Grippers/Link/Start.antt =====
-- Connecting: `GripperState::initializeImage` of src/gripper_state.cpp. The answer of the client to
-- each attempt, counted from 1, is an argument: `none` when it throws.
use tactile_sensors.Grippers.Image.{seed}
use tactile_sensors.Base.{
  ℕ, List, Option, [], false, if◌then◌else◌, leb, none, some, suc, zero, ◌+◌, ◌∷◌, ◌≡◌, Bool, arith,
  refl, true,
}
use tactile_sensors.Grippers.Blocks.{
  activate, go_to, get, activated, defaults, GripperCommand, GripperStatus, auto_release,
  go_to_enabled, set_to,
}
use tactile_sensors.Grippers.Link.{operational, GripperState, initial_read_attempts}
use tactile_sensors.Grippers.Log.{warn, Line, attempt_failed}

-- How the loop of attempts ends; `unfinished` is a model that has run out of fuel.
pub data Attempts : Type 0 where
  answered : GripperStatus → Attempts
  gave_up unfinished : Attempts

unfoldable pub initial_read : ℕ → ℕ → (ℕ → Option GripperStatus) → Attempts × List Line
initial_read zero attempt answers = (unfinished, [])
initial_read (suc fuel) attempt answers =
    let (end, lines) = initial_read fuel (attempt + 1) answers in
    let again : Attempts × List Line =
      (end, record { level = warn; message = attempt_failed attempt } ∷ lines) in
    elim (answers attempt) [
      | some s ↦ (answered s, [])
      | none ↦ if leb initial_read_attempts attempt then (gave_up, []) else again
    ]

-- The command that a fresh status suggests.
unfoldable pub seeded_command : GripperStatus → GripperCommand
unfolding set_to defaults
seeded_command s = record defaults {
  action =
      set_to (set_to defaults.action activate (activated s.gripper_status)) go_to
        (go_to_enabled s.gripper_status);
  position_request = s.position_request_echo;
}

-- The gripper once connected, or `none` for the exception; with the lines logged.
unfoldable pub initialize_image :
    GripperState → ℕ → (ℕ → Option GripperStatus) → ℕ → Option GripperState × List Line
initialize_image g fuel answers now =
    let (end, lines) = initial_read fuel 1 answers in
    (
      elim end [
        | answered s ↦
            some
              (record g { image = seed g.image s now (seeded_command s); connection = operational })
        | gave_up ↦ none
        | unfinished ↦ none
      ],
      lines,
    )

-- The first attempt that is answered among the three.
pub first_answer : (ℕ → Option GripperStatus) → Option GripperStatus
first_answer answers = elim (answers 1) [
  | some s ↦ some s
  | none ↦ elim (answers 2) [ some s ↦ some s | none ↦ answers 3 ]
]

abbrev pub connected : GripperState → ℕ → Option GripperStatus → Option GripperState
connected g now none = none
connected g now (some s) =
    some (record g { image = seed g.image s now (seeded_command s); connection = operational })

-- Three rounds are enough, however the client answers: the constructor connects with the first
-- answer of three attempts, and throws exactly when all three fail.
pub initialize_image-first_answer :
    (g : GripperState) (fuel : ℕ) (answers : ℕ → Option GripperStatus) (now : ℕ)
    → (initialize_image g (suc (suc (suc fuel))) answers now).0
      ≡ connected g now (first_answer answers)
unfolding initialize_image initial_read first_answer
initialize_image-first_answer g fuel answers now = ground arith

seeded_action-get :
    (active go : Bool)
    → let action = set_to (set_to defaults.action activate active) go_to go in
      (get action activate ≡ active) × (get action go_to ≡ go) × (get action auto_release ≡ false)
unfolding defaults set_to get
seeded_action-get true true = (refl, refl, refl)
seeded_action-get true false = (refl, refl, refl)
seeded_action-get false true = (refl, refl, refl)
seeded_action-get false false = (refl, refl, refl)

-- The seeded command asks the gripper for what it already does: its rACT, rGTO and position request
-- are the status's echoes, with speed and force at their maximum and no automatic release.
pub seeded_command-get :
    (s : GripperStatus)
    → let c = seeded_command s in
      (get c.action activate ≡ activated s.gripper_status)
      × (get c.action go_to ≡ go_to_enabled s.gripper_status)
      × (get c.action auto_release ≡ false)
      × (c.position_request ≡ s.position_request_echo)
      × (c.speed ≡ 0xFF)
      × (c.force ≡ 0xFF)
unfolding seeded_command
seeded_command-get s =
    let bits = seeded_action-get (activated s.gripper_status) (go_to_enabled s.gripper_status) in
    (bits.0, bits.1, bits.2, refl, refl, refl)
