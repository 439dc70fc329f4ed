-- ===== src/Grippers/Units/Clamp.antt =====
-- `std::clamp` on values that are not NaN, as src/units.cpp and src/frequency.hpp use it.
use tactile_sensors.Base.{Bool, Bool-cases, false, inl, inr, not, refl, true, ◌≡◌, ◌⊎◌, arith}
use tactile_sensors.Grippers.Units.{Double, clamp}
use tactile_sensors.Grippers.Units.Ieee.{IsNumber, IsOrdered}

not-eq : (a b : Bool) → a ≡ not b → a ≡ false → b ≡ true
not-eq a b h k = ground arith

module _ (d : Double) (o : IsOrdered d) where
  open d use {W, lt, le}

  infix 4 ◌⊑◌
  abbrev pub ◌⊑◌ : W → W → Type 0
  x ⊑ y = le x y ≡ true

  pub not_below : (x y : W) → IsNumber d x → IsNumber d y → lt x y ≡ false → y ⊑ x
  not_below x y p q h = not-eq (lt x y) (le y x) (o.lt-eq-not-le x y p q) h

  pub below : (x y : W) → IsNumber d x → IsNumber d y → lt x y ≡ true → x ⊑ y
  below x y p q h = elim (o.le_total x y p q) [
    | inl e ↦ e
    | inr e ↦ absurd (let f : lt x y ≡ not (le y x) = o.lt-eq-not-le x y p q in ground arith)
  ]

  module _ (lo hi : W) (low : IsNumber d lo) (high : IsNumber d hi) (ordered : lo ⊑ hi) where
    clamp_cases :
        (x : W)
        → IsNumber d x
        → ((clamp d x lo hi ≡ lo) × (x ⊑ lo))
          ⊎ ((clamp d x lo hi ≡ hi) × (hi ⊑ x))
          ⊎ ((clamp d x lo hi ≡ x) × (lo ⊑ x) × (x ⊑ hi))
    unfolding clamp
    clamp_cases x n = elim (Bool-cases (lt x lo)) [
      | inl e ↦ rw e (inl (refl, below x lo n low e))
      | inr e ↦ rw e (elim (Bool-cases (lt hi x)) [
        | inl g ↦ rw g (inr (inl (refl, below hi x high n g)))
        | inr g ↦ rw g (inr (inr (refl, not_below x lo n low e, not_below hi x high n g)))
      ])
    ]

    pub clamp_bounds : (x : W) → IsNumber d x → (lo ⊑ clamp d x lo hi) × (clamp d x lo hi ⊑ hi)
    clamp_bounds x n = elim (clamp_cases x n) [
      | inl (e, h) ↦ rw e (o.le_refl lo low, ordered)
      | inr (inl (e, h)) ↦ rw e (ordered, o.le_refl hi high)
      | inr (inr (e, h, k)) ↦ rw e (h, k)
    ]

    pub clamp_le :
        (x y : W) → IsNumber d x → IsNumber d y → x ⊑ y → clamp d x lo hi ⊑ clamp d y lo hi
    clamp_le x y p q h = elim (clamp_cases x p) [
      | inl (e, _) ↦ rw e (clamp_bounds y q).0
      | inr (inl (e, k)) ↦ elim (clamp_cases y q) [
        | inl (f, l) ↦ rw (e, f) (o.le_trans hi x lo k (o.le_trans x y lo h l))
        | inr (inl (f, l)) ↦ rw f (clamp_bounds x p).1
        | inr (inr (f, l, _)) ↦ rw (e, f) (o.le_trans hi x y k h)
      ]
      | inr (inr (e, k, _)) ↦ elim (clamp_cases y q) [
        | inl (f, l) ↦ rw (e, f) (o.le_trans x y lo h l)
        | inr (inl (f, l)) ↦ rw f (clamp_bounds x p).1
        | inr (inr (f, l, _)) ↦ rw (e, f) h
      ]
    ]

    -- Below and above the bounds the clamp is at them, up to the order.
    pub clamp-le_low : (x : W) → IsNumber d x → x ⊑ lo → clamp d x lo hi ⊑ lo
    clamp-le_low x n h = elim (clamp_cases x n) [
      | inl (e, _) ↦ rw e (o.le_refl lo low)
      | inr (inl (e, k)) ↦ rw e (o.le_trans hi x lo k h)
      | inr (inr (e, _, _)) ↦ rw e h
    ]

    pub high-le-clamp : (x : W) → IsNumber d x → hi ⊑ x → hi ⊑ clamp d x lo hi
    high-le-clamp x n h = elim (clamp_cases x n) [
      | inl (e, k) ↦ rw e (o.le_trans hi x lo h k)
      | inr (inl (e, _)) ↦ rw e (o.le_refl hi high)
      | inr (inr (e, _, _)) ↦ rw e h
    ]
