-- ===== src/Base/Split.antt =====
-- Texts, as lists of codes, split at a separator.
use mathlib.Core.Bool.{Bool, true, false, not, ◌&&◌}
use mathlib.Core.List.{List, [], ◌∷◌, ◌++◌}
use mathlib.Core.Logic.{inl, inr}
use mathlib.Core.Path.{◌≡◌, refl, ap, ◌∙◌}
use native.Mathlib.Omega.{arith}
use Prim.Native.Nat.{ℕ}
use tactile_sensors.Base.Tests.{Bool-cases, if◌then◌else◌, ◌==◌, &&-eq_true}

put_first : ℕ → List (List ℕ) → List (List ℕ)
put_first c [] = (c ∷ []) ∷ []
put_first c (w ∷ ws) = (c ∷ w) ∷ ws

-- The parts between the separators.
unfoldable pub split : ℕ → List ℕ → List (List ℕ)
unfolding put_first
split s [] = [] ∷ []
split s (c ∷ cs) = if c == s then [] ∷ split s cs else put_first c (split s cs)

abbrev pub lacks : ℕ → List ℕ → Bool
lacks s [] = true
lacks s (c ∷ cs) = not (c == s) && lacks s cs

put_first-append :
    (s c : ℕ) (text : List ℕ) (more : List (List ℕ))
    → put_first c (split s text ++ more) ≡ put_first c (split s text) ++ more
unfolding split put_first
put_first-append s c [] more = refl
put_first-append s c (x ∷ text) more = elim (Bool-cases (x == s)) [
  | inl e ↦ rw e refl
  | inr e ↦ rw e (inner x (split s text))
]
  where
    inner :
        (y : ℕ) (ws : List (List ℕ))
        → put_first c (put_first y ws ++ more) ≡ put_first c (put_first y ws) ++ more
    inner y [] = refl
    inner y (w ∷ ws) = refl

self : (s : ℕ) → (s == s) ≡ true
self s = ground arith

pub split-append : (s : ℕ) (a b : List ℕ) → split s (a ++ s ∷ b) ≡ split s a ++ split s b
unfolding split
split-append s [] b = rw (self s) refl
split-append s (c ∷ a) b = elim (Bool-cases (c == s)) [
  | inl e ↦ rw e (ap (◌∷◌ []) (split-append s a b))
  | inr e ↦ rw e (ap (put_first c) (split-append s a b) ∙ put_first-append s c a (split s b))
]

pub split-word : (s : ℕ) (w : List ℕ) → lacks s w ≡ true → split s w ≡ w ∷ []
unfolding split put_first
split-word s [] h = refl
split-word s (c ∷ w) h =
    let (p, q) = &&-eq_true (not (c == s)) (lacks s w) h in
    let e : (c == s) ≡ false = ground arith in rw e (ap (put_first c) (split-word s w q))

pub lacks-append :
    (s : ℕ) (a b : List ℕ) → lacks s a ≡ true → lacks s b ≡ true → lacks s (a ++ b) ≡ true
lacks-append s [] b h k = k
lacks-append s (c ∷ a) b h k =
    let (p, q) = &&-eq_true (not (c == s)) (lacks s a) h in rw (p, lacks-append s a b q k) refl
