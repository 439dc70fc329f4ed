-- ===== src/Grippers/Units/Spans.antt =====
-- `registerFromSpan` of src/units.cpp: the register of a value within and outside the span.
use tactile_sensors.Base.{
  Bool-cases, false, not, some, true, ◌≡◌, ◌≤◌, ℕ, arith, ap, inl, inr, ◌⊎◌, ◌∙◌,
}
use tactile_sensors.Grippers.Units.{Double, clamp, register_from_span, rounded_register}
use tactile_sensors.Grippers.Units.Clamp.{clamp_bounds, clamp_le, clamp-le_low, high-le-clamp}
use tactile_sensors.Grippers.Units.Ieee.{IsMonotone, IsNumber, IsOrdered}

module _ (d : Double) (o : IsOrdered d) (m : IsMonotone d) where
  open d use {W, nought, one, of_byte, sub, mul, div, lt, le, is_finite, lround}

  -- A span that the conversion accepts, with a finite length.
  pub record IsSpan (minimum maximum : W) : Type 0 where
    pub finite_minimum : is_finite minimum ≡ true
    pub finite_maximum : is_finite maximum ≡ true
    pub ordered : le maximum minimum ≡ false
    pub finite_span : is_finite (sub maximum minimum) ≡ true

  -- A value that it accepts.
  pub record IsQuantity (value : W) : Type 0 where
    pub finite : is_finite value ≡ true
    pub not_negative : lt value nought ≡ false

  module _ (minimum maximum : W) (s : IsSpan minimum maximum) where
    span : W
    span = sub maximum minimum

    fraction : W → W
    fraction value = div (sub value minimum) span

    clamped : W → W
    clamped value = clamp d (fraction value) nought one

    steps : W → ℕ
    steps value = lround (mul (clamped value) (of_byte 255))

    span_pos : lt nought span ≡ true
    unfolding span
    span_pos = m.sub_pos minimum maximum s.finite_minimum s.finite_maximum (
        o.lt-eq-not-le minimum maximum (o.finite_number minimum s.finite_minimum)
          (o.finite_number maximum s.finite_maximum)
        ∙ ap not s.ordered)

    fraction-IsNumber : (v : W) → is_finite v ≡ true → IsNumber d (fraction v)
    unfolding fraction span
    fraction-IsNumber v h =
        m.div_number (sub v minimum) span (m.sub_number v minimum h s.finite_minimum) s.finite_span
          (span_pos)

    fraction_le : (v w : W) → le v w ≡ true → le (fraction v) (fraction w) ≡ true
    unfolding fraction span
    fraction_le v w h =
        m.div_le (sub v minimum) (sub w minimum) span s.finite_span (span_pos)
          (m.sub_le v w minimum s.finite_minimum h)

    bounds :
        (v : W) → is_finite v ≡ true → (le nought (clamped v) ≡ true) × (le (clamped v) one ≡ true)
    unfolding clamped
    bounds v h =
        clamp_bounds d o nought one o.nought_number o.one_number o.nought-le-one (fraction v)
          (fraction-IsNumber v h)

    steps_max : (v : W) → is_finite v ≡ true → steps v ≤ 255
    unfolding steps
    steps_max v h =
        let b = bounds v h in
        omega (arith, m.lround_one, m.lround_le _ _ (m.scale_le (clamped v) one b.0 b.1))

    steps_le :
        (v w : W) → is_finite v ≡ true → is_finite w ≡ true → le v w ≡ true → steps v ≤ steps w
    unfolding steps clamped
    steps_le v w h k e = m.lround_le _ _ (
        m.scale_le (clamped v) (clamped w) (bounds v h).0 (
          clamp_le d o nought one o.nought_number o.one_number o.nought-le-one (fraction v)
            (fraction w) (fraction-IsNumber v h) (fraction-IsNumber w k) (fraction_le v w e)))

    steps_low : (v : W) → is_finite v ≡ true → le v minimum ≡ true → steps v ≡ 0
    unfolding steps clamped fraction span
    steps_low v h e =
        let f : le (fraction v) nought ≡ true = o.le_trans _ _ _ (fraction_le v minimum e) (
          o.le_trans _ _ _
            (m.div_le _ _ span s.finite_span span_pos (m.sub_self minimum s.finite_minimum))
            (m.div_nought span s.finite_span span_pos)) in
        let c : le (clamped v) nought ≡ true =
          clamp-le_low d o nought one o.nought_number o.one_number o.nought-le-one (fraction v)
            (fraction-IsNumber v h) f in
        omega
          (arith, m.lround_nought, m.lround_le _ _ (m.scale_le (clamped v) nought (bounds v h).0 c))

    steps_high : (v : W) → is_finite v ≡ true → le maximum v ≡ true → steps v ≡ 255
    unfolding steps clamped fraction span
    steps_high v h e =
        let f : le one (fraction v) ≡ true =
          o.le_trans _ _ _ (m.div_self span s.finite_span span_pos) (fraction_le maximum v e) in
        let c : le one (clamped v) ≡ true =
          high-le-clamp d o nought one o.nought_number o.one_number o.nought-le-one (fraction v)
            (fraction-IsNumber v h) f in
        omega (
          arith,
          m.lround_one,
          steps_max v h,
          m.lround_le _ _ (m.scale_le one (clamped v) o.nought-le-one c),
        )

    converted : (v : W) → IsQuantity v → register_from_span d v minimum maximum ≡ some (steps v)
    unfolding register_from_span rounded_register steps clamped fraction span
    converted v q =
        rw (q.finite, q.not_negative, s.finite_minimum, s.finite_maximum, s.ordered)
          (ap some (let h : steps v ≤ 255 = steps_max v q.finite in omega arith))

    -- For a span of finite ends and length and finite values that are not negative, the conversion
    -- gives a byte. A larger value never has a smaller register; a value not above the minimum has
    -- register 0, and one not below the maximum has register 255.
    pub register_from_span-steps :
        (v w : W)
        → IsQuantity v
        → IsQuantity w
        → le v w ≡ true
        → (r : ℕ) × (q : ℕ) × (register_from_span d v minimum maximum ≡ some r)
          × (register_from_span d w minimum maximum ≡ some q)
          × (r ≤ q)
          × (q ≤ 255)
          × ((le v minimum ≡ false) ⊎ (r ≡ 0))
          × ((le maximum v ≡ false) ⊎ (r ≡ 255))
    register_from_span-steps v w p q h = (
      steps v,
      steps w,
      converted v p,
      converted w q,
      steps_le v w p.finite q.finite h,
      steps_max w q.finite,
      elim (Bool-cases (le v minimum)) [ inl e ↦ inr (steps_low v p.finite e) | inr e ↦ inl e ],
      elim (Bool-cases (le maximum v)) [ inl e ↦ inr (steps_high v p.finite e) | inr e ↦ inl e ],
    )
