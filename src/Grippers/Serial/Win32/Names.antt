-- ===== src/Grippers/Serial/Win32/Names.antt =====
-- `devicePath` of src/detail/win32/serial_port.cpp.
use tactile_sensors.Base.{Bool-cases, List, drop, inl, inr, length, ltb, refl, ◌&&◌, ◌++◌, ◌≡◌, ℕ}
use tactile_sensors.Grippers.Serial.Win32.{
  all_digits, device_path, device_prefix, lower, starts_with_com,
}

prefixed : (port : List ℕ) → device_path (device_prefix ++ port) ≡ device_prefix ++ port
unfolding device_path starts_with_com lower
prefixed port = elim (Bool-cases (ltb 3 (length (device_prefix ++ port)))) [
  | inl e ↦ rw e refl
  | inr e ↦ rw e refl
]

-- A path is not prefixed twice.
pub device_path-device_path : (port : List ℕ) → device_path (device_path port) ≡ device_path port
unfolding device_path
device_path-device_path port =
    elim (Bool-cases (ltb 3 (length port) && starts_with_com port && all_digits (drop 3 port))) [
      | inl e ↦ rw e (prefixed port)
      | inr e ↦ rw (e, e) refl
    ]
