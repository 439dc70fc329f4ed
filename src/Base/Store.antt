-- ===== src/Base/Store.antt =====
-- A list whose cells are overwritten one after the other.
use Prim.Native.Nat.{ℕ, suc, ◌+◌, ◌≤◌}
use mathlib.Core.Path.{◌≡◌, refl, ap, ◌∙◌}
use mathlib.Core.List.{List, [], ◌∷◌}
use native.Mathlib.Omega.{arith}
use tactile_sensors.Base.Lists.{length, set, take, length-set}

-- The elements stored one by one from `i` on.
unfoldable pub store : List ℕ → ℕ → List ℕ → List ℕ
store p i [] = p
store p i (d ∷ ds) = store (set p i d) (i + 1) ds

pub store-nil : (p : List ℕ) (i : ℕ) → store p i [] ≡ p
unfolding store
store-nil p i = refl

pub store-step :
    (p : List ℕ) (i d : ℕ) (ds : List ℕ) → store p i (d ∷ ds) ≡ store (set p i d) (i + 1) ds
unfolding store
store-step p i d ds = refl

pub length-store : (p : List ℕ) (i : ℕ) (ds : List ℕ) → length (store p i ds) ≡ length p
unfolding store
length-store p i [] = refl
length-store p i (d ∷ ds) = length-store (set p i d) (i + 1) ds ∙ length-set p i d

pub store-cons :
    (x : ℕ) (p : List ℕ) (i : ℕ) (ds : List ℕ) → store (x ∷ p) (suc i) ds ≡ x ∷ store p i ds
unfolding store
store-cons x p i [] = refl
store-cons x p i (d ∷ ds) =
    let next : suc i + 1 ≡ suc (i + 1) = omega arith in
    ap (λ j. store (x ∷ set p i d) j ds) next ∙ store-cons x (set p i d) (i + 1) ds

pub take-store : (p ds : List ℕ) → length ds ≤ length p → take (length ds) (store p 0 ds) ≡ ds
unfolding store
take-store p [] h = refl
take-store [] (d ∷ ds) h = absurd (omega arith)
take-store (x ∷ p) (d ∷ ds) h =
    rw (store-cons d p 0 ds) (ap (◌∷◌ d) (take-store p ds (omega arith)))

-- As many elements as there are cells replace the list.
pub store-all : (p ds : List ℕ) → length ds ≡ length p → store p 0 ds ≡ ds
unfolding store
store-all [] [] h = refl
store-all (x ∷ p) [] h = absurd (omega arith)
store-all [] (d ∷ ds) h = absurd (omega arith)
store-all (x ∷ p) (d ∷ ds) h = rw (store-cons d p 0 ds) (ap (◌∷◌ d) (store-all p ds (omega arith)))
