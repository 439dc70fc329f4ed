-- ===== src/Tactile/Version.antt =====
-- Asking for the firmware's version: `getFirmwareVersion` of tsf/sdk_cpp/RobotiqTactileSensor.cpp. Its
-- arguments are whether the request could be sent, and the packets that the reader thread handles
-- until the wait ends, with their times.
use tactile_sensors.Base.{
  ℕ, Bool, Bool-cases, List, Option, [], ap, false, if◌then◌else◌, inl, inr, none, not, refl, some,
  true, ◌==◌, ◌∙◌, ◌∷◌, ◌≡◌, ◌⊎◌,
}
use tactile_sensors.Tactile.Framing.{Packet}
use tactile_sensors.Tactile.Sensors.{Fingers}
use tactile_sensors.Tactile.Reader.{
  Reader, any_new, dispatch, parsed, handle, handle_all, get_version, is_sensor_command,
}

pub data VersionError : Type 0 where
  version_not_connected send_failed version_timeout : VersionError

unfoldable pub reset_slot : Reader → Reader
reset_slot r = record r { version_ready = false; firmware_version = [] }

-- The result, and the reader afterwards.
unfoldable pub get_firmware_version :
    Bool → Bool → List (ℕ × Packet) → Reader → (VersionError ⊎ List ℕ) × Reader
unfolding reset_slot handle_all
get_firmware_version connected sent meanwhile r =
    if not connected
    then (inl version_not_connected, r)
    else if not sent
    then (inl send_failed, reset_slot r)
    else (let r' = (handle_all meanwhile (reset_slot r)).0 in
        if not r'.version_ready then (inl version_timeout, r') else (inr r'.firmware_version, r'))

-- What the slot holds: the version, if there is one.
abbrev slot : Reader → Option (List ℕ)
slot r = if r.version_ready then some r.firmware_version else none

-- The version in the last reply among the packets, from the slot's contents before them.
abbrev pub last_version : Option (List ℕ) → List (ℕ × Packet) → Option (List ℕ)
last_version v [] = v
last_version v (p ∷ ps) = last_version (if p.1.code == get_version then some p.1.payload else v) ps

slot-dispatch : (now : ℕ) (fs : Fingers) (r : Reader) → slot (dispatch now fs r).0 ≡ slot r
unfolding dispatch
slot-dispatch now fs r = elim (Bool-cases (any_new fs)) [
  | inr e ↦ rw e refl
  | inl e ↦ elim (Bool-cases r.calculating_baseline) [
    | inl c ↦ rw (e, c) refl
    | inr c ↦ elim (Bool-cases r.has_callback) [
      | inl b ↦ rw (e, c, b) refl
      | inr b ↦ rw (e, c, b) refl
    ]
  ]
]

slot-handle :
    (now : ℕ) (p : Packet) (r : Reader)
    → slot (handle now p r).0 ≡ (if p.code == get_version then some p.payload else slot r)
unfolding handle
slot-handle now p r = elim (Bool-cases (p.code == get_version)) [
  | inl e ↦ rw e refl
  | inr e ↦ elim (Bool-cases (is_sensor_command p.code)) [
    | inl s ↦ rw (e, s) (slot-dispatch now (parsed p.payload r.fingers) r)
    | inr s ↦ rw (e, s) refl
  ]
]

slot-handle_all :
    (ps : List (ℕ × Packet)) (r : Reader) → slot (handle_all ps r).0 ≡ last_version (slot r) ps
unfolding handle_all
slot-handle_all [] r = refl
slot-handle_all (p ∷ ps) r =
    slot-handle_all ps (handle p.0 p.1 r).0 ∙ ap (λ v. last_version v ps) (slot-handle p.0 p.1 r)

-- What the call makes of the slot.
abbrev pub reported : Option (List ℕ) → VersionError ⊎ List ℕ
reported none = inl version_timeout
reported (some v) = inr v

reported-slot :
    (r : Reader)
    → (let result : (VersionError ⊎ List ℕ) × Reader =
          if not r.version_ready then (inl version_timeout, r) else (inr r.firmware_version, r) in
        result.0)
      ≡ reported (slot r)
reported-slot r = elim (Bool-cases r.version_ready) [ inl e ↦ rw e refl | inr e ↦ rw e refl ]

-- With the sensor connected and the request sent, the call returns the data of the last version reply
-- that the reader handles before the wait ends, whatever sensor data and other packets come between
-- and whatever an earlier call has left in the slot; without a reply it is a timeout.
pub get_firmware_version-last :
    (ps : List (ℕ × Packet)) (r : Reader)
    → (get_firmware_version true true ps r).0 ≡ reported (last_version none ps)
unfolding get_firmware_version reset_slot
get_firmware_version-last ps r =
    reported-slot (handle_all ps (reset_slot r)).0 ∙ ap reported (slot-handle_all ps (reset_slot r))
