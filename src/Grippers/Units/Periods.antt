-- ===== src/Grippers/Units/Periods.antt =====
-- `exchangePeriodFromFrequency` of src/exchange_period.hpp: the range of the periods.
use tactile_sensors.Base.{
  Bool-cases, false, inl, inr, none, refl, some, true, ◌≡◌, ◌≤◌, ℕ, arith, ◌||◌, ◌∙◌, ◌⊎◌, sym,
}
use tactile_sensors.Grippers.Units.{
  Double, clamp, clamp_frequency, period_of, exchange_period_from_frequency,
}
use tactile_sensors.Grippers.Units.Clamp.{clamp_bounds}
use tactile_sensors.Grippers.Units.Ieee.{IsNumber, IsOrdered, IsPaced}

module _ (d : Double) (o : IsOrdered d) (p : IsPaced d) where
  open d use {W, nought, tenth, thousand, million, div, lt, le, eq, is_nan, lround}

  supported : W → W
  supported hz = clamp d hz tenth thousand

  supported_pos : (hz : W) → IsNumber d hz → eq (supported hz) nought ≡ false
  unfolding supported
  supported_pos hz n = elim (Bool-cases (eq (clamp d hz tenth thousand) nought)) [
    | inl e ↦ absurd (
        let b =
          clamp_bounds d o tenth thousand p.tenth_number p.thousand_number p.tenth-le-thousand hz
            n in
        let c : le tenth nought ≡ true = o.le_trans _ _ _ b.0 (p.le_of_eq _ e) in
        let f : false ≡ true = sym p.tenth_pos ∙ c in cc)
    | inr e ↦ e
  ]

  -- A frequency that is NaN or negative is refused, and zero stands for no pacing, period 0. Any other
  -- has a period from a thousandth of a second, at 1000 Hz and above, to ten seconds, at 0.1 Hz and
  -- below.
  pub exchange_period_bounds :
      (hz : W)
      → ((is_nan hz || lt hz nought ≡ true) × (exchange_period_from_frequency d hz ≡ none))
        ⊎ ((is_nan hz || lt hz nought ≡ false)
            × (eq hz nought ≡ true)
            × (exchange_period_from_frequency d hz ≡ some 0))
        ⊎ ((is_nan hz || lt hz nought ≡ false)
            × (eq hz nought ≡ false)
            × ((period : ℕ) × (exchange_period_from_frequency d hz ≡ some period)
                × (1000 ≤ period)
                × (period ≤ 10000000)))
  unfolding exchange_period_from_frequency clamp_frequency period_of supported
  exchange_period_bounds hz = elim (Bool-cases (is_nan hz || lt hz nought)) [
    | inl e ↦ inl (e, rw e refl)
    | inr e ↦ elim (Bool-cases (eq hz nought)) [
      | inl z ↦ inr (inl (e, z, rw (e, z, p.eq_nought) refl))
      | inr z ↦
          let n : IsNumber d hz = ground arith in
          let b =
            clamp_bounds d o tenth thousand p.tenth_number p.thousand_number p.tenth-le-thousand hz
              n in
          inr (
            inr (
              e,
              z,
              (
                lround (div million (supported hz)),
                rw (e, z, supported_pos hz n) refl,
                omega (
                  arith,
                  p.shortest,
                  p.round_le _ _ (p.period_le (supported hz) thousand b.0 b.1),
                ),
                omega (
                  arith,
                  p.longest,
                  p.round_le _ _
                      (p.period_le tenth (supported hz) (o.le_refl tenth p.tenth_number) b.0),
                ),
              ),
            ))
    ]
  ]
