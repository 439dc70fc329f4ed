-- ===== src/Grippers/Units/Ieee.antt =====
-- What the proofs of src/units.cpp rely on of `double`: IEEE 754 orders the values that are not NaN, and
-- rounding keeps that order.
use tactile_sensors.Base.{
  Bool-cases, arith, false, inl, inr, leb, le→leb, leb→le, ltb, lt→ltb, ltb→lt, not, refl, true,
  ◌+◌, ◌-◌, ◌*◌, ◌/◌, ◌==◌, ◌<◌, ◌≡◌, ◌≤◌, ◌⊎◌, ℕ,
}
use tactile_sensors.Grippers.Units.{Double}

module _ (d : Double) where
  open d use {
    W, nought, one, of_byte, tenth, thousand, million, add, sub, mul, div, lt, le, eq, is_finite,
    is_nan, lround,
  }

  infix 4 ◌≼◌
  abbrev pub ◌≼◌ : W → W → Type 0
  x ≼ y = le x y ≡ true

  -- A value that is not NaN.
  abbrev pub IsNumber : W → Type 0
  IsNumber x = is_nan x ≡ false

  pub record IsOrdered : Type 0 where
    pub le_refl : (x : W) → IsNumber x → x ≼ x
    pub le_trans : (x y z : W) → x ≼ y → y ≼ z → x ≼ z
    pub le_total : (x y : W) → IsNumber x → IsNumber y → (x ≼ y) ⊎ (y ≼ x)
    pub lt-eq-not-le : (x y : W) → IsNumber x → IsNumber y → lt x y ≡ not (le y x)
    pub finite_number : (x : W) → is_finite x ≡ true → IsNumber x
    pub nought_number : IsNumber nought
    pub one_number : IsNumber one
    pub nought-le-one : nought ≼ one

  -- The operations on the scale of registers.
  pub record IsMonotone : Type 0 where
    pub sub_number : (x y : W) → is_finite x ≡ true → is_finite y ≡ true → IsNumber (sub x y)
    pub sub_le : (x y z : W) → is_finite z ≡ true → x ≼ y → sub x z ≼ sub y z
    pub sub_pos :
        (x y : W)
        → is_finite x ≡ true
        → is_finite y ≡ true
        → lt x y ≡ true
        → lt nought (sub y x) ≡ true
    pub div_number :
        (x y : W) → IsNumber x → is_finite y ≡ true → lt nought y ≡ true → IsNumber (div x y)
    pub div_le : (x y z : W) → is_finite z ≡ true → lt nought z ≡ true → x ≼ y → div x z ≼ div y z
    pub scale_le : (x y : W) → nought ≼ x → x ≼ y → mul x (of_byte 255) ≼ mul y (of_byte 255)
    pub sub_self : (x : W) → is_finite x ≡ true → sub x x ≼ nought
    pub div_nought : (y : W) → is_finite y ≡ true → lt nought y ≡ true → div nought y ≼ nought
    pub div_self : (y : W) → is_finite y ≡ true → lt nought y ≡ true → one ≼ div y y
    pub lround_le : (x y : W) → x ≼ y → lround x ≤ lround y
    pub lround_nought : lround (mul nought (of_byte 255)) ≡ 0
    pub lround_one : lround (mul one (of_byte 255)) ≡ 255

  -- The operations on frequencies.
  pub record IsPaced : Type 0 where
    pub tenth_number : IsNumber tenth
    pub thousand_number : IsNumber thousand
    pub tenth-le-thousand : tenth ≼ thousand
    pub tenth_pos : le tenth nought ≡ false
    pub eq_nought : eq nought nought ≡ true
    pub le_of_eq : (x : W) → eq x nought ≡ true → x ≼ nought
    pub period_le : (x y : W) → tenth ≼ x → x ≼ y → div million y ≼ div million x
    pub round_le : (x y : W) → x ≼ y → lround x ≤ lround y
    pub longest : lround (div million tenth) ≡ 10000000
    pub shortest : lround (div million thousand) ≡ 1000

-- The laws can be met: whole tenths, with a division that rounds down.
abbrev pub tenths : Double
tenths = record {
  W = ℕ;
  nought = 0;
  one = 1;
  of_byte = λ n. n;
  tenth = 1;
  thousand = 10000;
  million = 10000000;
  add = λ x y. x + y;
  sub = λ x y. x - y;
  mul = λ x y. x * y;
  div = λ x y. x / y;
  lt = ltb;
  le = leb;
  eq = λ x y. x == y;
  is_finite = λ x. true;
  is_nan = λ x. false;
  lround = λ x. x;
}

pub tenths-IsOrdered : IsOrdered tenths
tenths-IsOrdered = record {
  le_refl = λ x h. ground arith;
  le_trans = λ x y z h k. ground arith;
  le_total = λ x y h k. elim (Bool-cases (leb x y)) [ inl e ↦ inl e | inr e ↦ inr (ground arith) ];
  lt-eq-not-le = λ x y h k. ground arith;
  finite_number = λ x h. refl;
  nought_number = refl;
  one_number = refl;
  nought-le-one = refl;
}

div_le : (x y z : ℕ) → 0 < z → x ≤ y → x / z ≤ y / z
div_le x y z h k = grind arith

div_anti : (m x y : ℕ) → 0 < x → x ≤ y → m / y ≤ m / x
div_anti m x y h k = grind arith

pub tenths-IsMonotone : IsMonotone tenths
tenths-IsMonotone = record {
  sub_number = λ x y h k. refl;
  sub_le = λ x y z h k. le→leb _ _ (let e : x ≤ y = leb→le x y k in omega arith);
  sub_pos = λ x y h k l. lt→ltb _ _ (let e : x < y = ltb→lt x y l in omega arith);
  div_number = λ x y h k l. refl;
  div_le = λ x y z h l k. le→leb _ _ (div_le x y z (ltb→lt 0 z l) (leb→le x y k));
  scale_le = λ x y h k. le→leb _ _ (let e : x ≤ y = leb→le x y k in omega arith);
  sub_self = λ x h. le→leb _ _ (omega arith);
  div_nought = λ y h l. le→leb _ _ (let e : 0 < y = ltb→lt 0 y l in grind arith);
  div_self = λ y h l. le→leb _ _ (let e : 0 < y = ltb→lt 0 y l in grind arith);
  lround_le = λ x y h. leb→le x y h;
  lround_nought = refl;
  lround_one = refl;
}

pub tenths-IsPaced : IsPaced tenths
tenths-IsPaced = record {
  tenth_number = refl;
  thousand_number = refl;
  tenth-le-thousand = refl;
  tenth_pos = refl;
  eq_nought = refl;
  le_of_eq = λ x h. ground arith;
  period_le = λ x y h k. le→leb _ _ (div_anti 10000000 x y (leb→le 1 x h) (leb→le x y k));
  round_le = λ x y h. leb→le x y h;
  longest = refl;
  shortest = refl;
}
