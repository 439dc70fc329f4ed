-- ===== src/Grippers/Platform/Std/Waits.antt =====
-- The condition variable of src/hosted/std_platform.cpp: what ends a wait.
use tactile_sensors.Base.{
  Bool-cases, List, [], ap, arith, &&-eq_true, ==→eq, false, inl, inr, ltb, ltb→lt, refl, ◌%◌, ◌&&◌,
  ◌+◌, ◌++◌, ◌<◌, ◌==◌, ◌^◌, ◌∷◌, ◌≡◌, ◌≤◌, ◌⊎◌, ℕ, zero, suc,
}
use tactile_sensors.Grippers.Platform.Std.{
  Check, Outcome, notify_all, returned, wait_from, wait_until, waiting,
}

-- The generation after so many notifications.
pub notified : ℕ → ℕ → ℕ
notified generation zero = generation
notified generation (suc n) = notify_all (notified generation n)

-- A test of the loop at a time and after so many notifications of the whole wait.
pub record Moment : Type 0 where
  pub now : ℕ
  pub notifications : ℕ

abbrev pub checks_at : ℕ → List Moment → List Check
checks_at generation [] = []
checks_at generation (m ∷ ms) =
    record { generation = notified generation m.notifications; now = m.now }
    ∷ checks_at generation ms

-- Nothing has happened yet that would end the wait.
abbrev pub AllQuiet : ℕ → List Moment → Type 0
AllQuiet time_point [] = Unit
AllQuiet time_point (m ∷ ms) = (m.notifications ≡ 0) × (m.now < time_point) × AllQuiet time_point ms

-- Fewer than 2^64 notifications.
abbrev pub AllFew : List Moment → Type 0
AllFew [] = Unit
AllFew (m ∷ ms) = (m.notifications < 2 ^ 64) × AllFew ms

notified-mod :
    (generation n : ℕ) → generation < 2 ^ 64 → notified generation n ≡ (generation + n) % 2 ^ 64
unfolding notified notify_all
notified-mod generation zero h = omega arith
notified-mod generation (suc n) h = omega (arith, notified-mod generation n h)

notified-eq :
    (generation n : ℕ)
    → generation < 2 ^ 64
    → n < 2 ^ 64
    → notified generation n ≡ generation
    → n ≡ 0
notified-eq generation n h k e = omega (arith, notified-mod generation n h)

-- How a wait ends.
abbrev pub Waits : ℕ → ℕ → List Moment → Outcome → Type 0
Waits generation time_point moments waiting = AllQuiet time_point moments
Waits generation time_point moments (returned rest) =
    (before : List Moment) × (m : Moment) × (after : List Moment) × (moments ≡ before ++ m ∷ after)
    × (rest ≡ checks_at generation after)
    × AllQuiet time_point before
    × ((0 < m.notifications) ⊎ (time_point ≤ m.now))

one_more :
    (generation time_point : ℕ) (m : Moment) (moments : List Moment) (o : Outcome)
    → m.notifications ≡ 0
    → m.now < time_point
    → Waits generation time_point moments o
    → Waits generation time_point (m ∷ moments) o
one_more generation time_point m moments waiting h k w = (h, k, w)
one_more generation time_point m moments (returned rest) h k
      (before, c, after, split, left, all, ends) =
    (m ∷ before, c, after, ap (◌∷◌ m) split, left, (h, k, all), ends)

over :
    (generation n now time_point : ℕ)
    → (notified generation n == generation && ltb now time_point) ≡ false
    → (0 < n) ⊎ (time_point ≤ now)
unfolding notified
over generation zero now time_point e = inr (ground arith)
over generation (suc n) now time_point e = inl (omega arith)

-- A wait returns at the first test of its loop that follows a notification made since it began, or the
-- deadline, and at none before: a wake-up of another kind does not end it. Until then it waits. It
-- holds while there are fewer than 2^64 notifications.
pub wait_until-Waits :
    (generation time_point : ℕ) (moments : List Moment)
    → generation < 2 ^ 64
    → AllFew moments
    → Waits generation time_point moments
        (wait_until generation time_point (checks_at generation moments))
unfolding wait_until wait_from
wait_until-Waits generation time_point [] h few = tt
wait_until-Waits generation time_point (m ∷ moments) h few =
    elim (Bool-cases (notified generation m.notifications == generation && ltb m.now time_point)) [
      | inl e ↦
          let (same, early) = &&-eq_true _ _ e in
          rw e (
            one_more generation time_point m moments
              (wait_until generation time_point (checks_at generation moments))
              (notified-eq generation m.notifications h few.0 (==→eq _ _ same)) (ltb→lt _ _ early)
              (wait_until-Waits generation time_point moments h few.1))
      | inr e ↦
          rw e ([], m, moments, refl, refl, tt, over generation m.notifications m.now time_point e)
    ]
