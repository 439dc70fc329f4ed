-- ===== src/Grippers/Units.antt =====
-- src/units.cpp, with device_profile.hpp, src/frequency.hpp and src/exchange_period.hpp: the conversions
-- between physical quantities and registers, and from a frequency to a period. The arithmetic of
-- `double` is a record that they take.
mod Tests
pub mod Ieee
pub mod Clamp
pub mod Spans
pub mod Periods
use tactile_sensors.Base.{
  Bool, List, Option, [], if◌then◌else◌, none, not, some, ◌%◌, ◌&&◌, ◌^◌, ◌||◌, ◌∷◌, ℕ,
}
use tactile_sensors.Grippers.Log.{Level, warn}

-- What the code does with a `double`. `lround` is only used for values of at least 0.
pub record Double : Type 1 where
  pub W : Type 0
  pub nought : W
  pub one : W
  pub of_byte : ℕ → W
  -- The constants 0.1, 1000.0 and 1000000.0.
  pub tenth : W
  pub thousand : W
  pub million : W
  pub add : W → W → W
  pub sub : W → W → W
  pub mul : W → W → W
  pub div : W → W → W
  pub lt : W → W → Bool
  pub le : W → W → Bool
  pub eq : W → W → Bool
  pub is_finite : W → Bool
  pub is_nan : W → Bool
  pub lround : W → ℕ

module _ (d : Double) where
  open d use {
    W, nought, one, of_byte, tenth, thousand, million, add, sub, mul, div, lt, le, eq, is_finite,
    is_nan, lround,
  }

  -- `std::clamp`.
  unfoldable pub clamp : W → W → W → W
  clamp v lo hi = if lt v lo then lo else if lt hi v then hi else v

  unfoldable pub rounded_register : W → ℕ
  rounded_register steps = lround steps % 2 ^ 8

  unfoldable pub register_from_span : W → W → W → Option ℕ
  unfolding clamp rounded_register
  register_from_span value minimum maximum =
      if not (is_finite value)
        || lt value nought
        || not (is_finite minimum)
        || not (is_finite maximum)
        || le maximum minimum
      then none
      else some (
          rounded_register
            (mul (clamp (div (sub value minimum) (sub maximum minimum)) nought one) (of_byte 255)))

  pub record DeviceProfile : Type 0 where
    pub min_speed : W
    pub max_speed : W
    pub min_opening : W
    pub max_opening : W
    pub open_position : ℕ
    pub closed_position : ℕ

  abbrev pub register_position_range : DeviceProfile → W
  register_position_range p = sub (of_byte p.closed_position) (of_byte p.open_position)

  abbrev pub opening_range : DeviceProfile → W
  opening_range p = sub p.max_opening p.min_opening

  unfoldable pub speed_to_register : W → DeviceProfile → Option ℕ
  unfolding register_from_span
  speed_to_register speed p = register_from_span speed p.min_speed p.max_speed

  -- The register, and what is logged.
  unfoldable pub normalized_to_register : W → Option ℕ × List Level
  unfolding clamp rounded_register
  normalized_to_register value =
      let clamped = clamp value nought one in
      if not (is_finite value) then (none, []) else (
        some (rounded_register (mul clamped (of_byte 255))),
        if not (eq clamped value) then warn ∷ [] else [],
      )

  unfoldable pub normalized_from_register : ℕ → W
  normalized_from_register value = div (of_byte value) (of_byte 255)

  unfoldable pub opening_to_register : W → DeviceProfile → Option ℕ
  unfolding clamp rounded_register
  opening_to_register opening p =
      let span = opening_range p in
      if not (is_finite opening)
        || not (is_finite span)
        || le span nought
        || le (register_position_range p) nought
      then none
      else some (
          rounded_register (
            add (of_byte p.open_position) (
              mul (sub one (clamp (div (sub opening p.min_opening) span) nought one))
                (register_position_range p))))

  unfoldable pub opening_from_register : ℕ → DeviceProfile → Option W
  unfolding clamp
  opening_from_register value p =
      let band = register_position_range p in
      let span = opening_range p in
      if le band nought || not (is_finite span) || le span nought
      then none
      else some (
          add p.min_opening (
            mul
              (sub one
                (clamp (div (sub (of_byte value) (of_byte p.open_position)) band) nought one))
              span))

  unfoldable pub effort_to_register : W → Option ℕ
  unfolding register_from_span
  effort_to_register effort = register_from_span effort nought one

  -- `none` is the exception.
  unfoldable pub clamp_frequency : W → Option W
  unfolding clamp
  clamp_frequency hz =
      if is_nan hz || lt hz nought
      then none
      else if eq hz nought
      then some nought
      else some (clamp hz tenth thousand)

  -- The period in microseconds.
  unfoldable pub period_of : Option W → Option ℕ
  period_of none = none
  period_of (some supported) =
      if eq supported nought then some 0 else some (lround (div million supported))

  unfoldable pub exchange_period_from_frequency : W → Option ℕ
  unfolding clamp_frequency period_of
  exchange_period_from_frequency hz = period_of (clamp_frequency hz)

  frequency_of : W → Option W → Option (W × List Level)
  frequency_of requested none = none
  frequency_of requested (some supported) =
      let frequency = if eq supported nought then thousand else supported in
      some
        (frequency, if lt nought requested && not (eq frequency requested) then warn ∷ [] else [])

  -- The frequency of a fake gripper, and what is logged; `none` is the exception.
  unfoldable pub fake_frequency : W → Option (W × List Level)
  unfolding frequency_of clamp_frequency
  fake_frequency requested = frequency_of requested (clamp_frequency requested)

  -- Its period.
  unfoldable pub fake_period : W → Option ℕ
  unfolding fake_frequency exchange_period_from_frequency
  fake_period requested = elim (fake_frequency requested) [
    | none ↦ none
    | some (frequency, log) ↦ exchange_period_from_frequency frequency
  ]
