-- ===== src/Grippers/Units/Tests.antt =====
-- The theorems about units at concrete inputs, in whole tenths.
use tactile_sensors.Base.{◌≡◌, ◌≤◌, ◌⊎◌, ℕ, refl, false, some, leb}
use tactile_sensors.Grippers.Units.{register_from_span}
use tactile_sensors.Grippers.Units.Ieee.{tenths, tenths-IsMonotone, tenths-IsOrdered}
use tactile_sensors.Grippers.Units.Spans.{IsSpan, register_from_span-steps}

IsSpan-IsSpan : IsSpan tenths tenths-IsOrdered tenths-IsMonotone 2 4
IsSpan-IsSpan = record {
  finite_minimum = refl;
  finite_maximum = refl;
  ordered = refl;
  finite_span = refl;
}

register_from_span-steps_example :
    (r : ℕ) × (q : ℕ) × (register_from_span tenths 1 2 4 ≡ some r)
    × (register_from_span tenths 3 2 4 ≡ some q)
    × (r ≤ q)
    × (q ≤ 255)
    × ((leb 1 2 ≡ false) ⊎ (r ≡ 0))
    × ((leb 4 1 ≡ false) ⊎ (r ≡ 255))
register_from_span-steps_example =
    register_from_span-steps tenths tenths-IsOrdered tenths-IsMonotone 2 4 IsSpan-IsSpan 1 3
      (record { finite = refl; not_negative = refl })
      (record { finite = refl; not_negative = refl }) refl
