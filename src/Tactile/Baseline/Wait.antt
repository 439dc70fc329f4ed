-- ===== src/Tactile/Baseline/Wait.antt =====
-- How `findBaseline` of tsf/sdk_cpp/RobotiqTactileSensor.cpp ends.
use tactile_sensors.Base.{
  ℕ, Bool, List, Option, ap, ap₂, arith, false, ge→ltb, inl, inr, lt→ltb, none, refl, some, suc,
  sym, true, zero, ◌+◌, ◌-◌, ◌<◌, ◌∙◌, ◌≡◌, ◌≤◌, ◌==◌, ==→eq, Bool-cases, eq→==, if◌then◌else◌, not,
  ◌⊎◌, not-zero,
}
use tactile_sensors.Tactile.Sensors.{Fingers}
use tactile_sensors.Tactile.Reader.{sample_count}
use tactile_sensors.Tactile.Baseline.{
  BaselineError, connection_lost, timed_out, max_timeout, wait_for_samples, find_baseline,
  baseline_of,
}

-- In `n` polls from `k` on the sensor is connected and samples are missing.
unfoldable pub Pending : (ℕ → ℕ × Bool) → ℕ → ℕ → Type 0
Pending poll zero k = Unit
Pending poll (suc n) k = ((poll k).1 ≡ true) × ((poll k).0 < sample_count) × Pending poll n (k + 1)

wait_for_samples-lost :
    (poll : ℕ → ℕ × Bool) (left k : ℕ)
    → (poll k).1 ≡ false
    → wait_for_samples poll (suc left) k ≡ some connection_lost
unfolding wait_for_samples
wait_for_samples-lost poll left k h = rw h refl

wait_for_samples-last :
    (poll : ℕ → ℕ × Bool) (k : ℕ)
    → (poll k).1 ≡ true
    → wait_for_samples poll 1 k ≡ some (timed_out (poll k).0)
unfolding wait_for_samples
wait_for_samples-last poll k h = rw h refl

wait_for_samples-enough :
    (poll : ℕ → ℕ × Bool) (left k : ℕ)
    → (poll k).1 ≡ true
    → sample_count ≤ (poll k).0
    → 0 < left
    → wait_for_samples poll (suc left) k ≡ none
unfolding wait_for_samples
wait_for_samples-enough poll left k h e l =
    rw (h, not-zero left l, ge→ltb (poll k).0 sample_count e) refl

wait_for_samples-more :
    (poll : ℕ → ℕ × Bool) (left k : ℕ)
    → (poll k).1 ≡ true
    → (poll k).0 < sample_count
    → 0 < left
    → wait_for_samples poll (suc left) k ≡ wait_for_samples poll left (k + 1)
unfolding wait_for_samples
wait_for_samples-more poll left k h e l =
    rw (h, not-zero left l, lt→ltb (poll k).0 sample_count e) refl

wait_for_samples-Pending :
    (poll : ℕ → ℕ × Bool) (n left k : ℕ)
    → Pending poll n k
    → wait_for_samples poll (n + suc left) k ≡ wait_for_samples poll (suc left) (k + n)
unfolding Pending
wait_for_samples-Pending poll zero left k h =
    ap₂ (wait_for_samples poll) (omega arith) (omega arith)
wait_for_samples-Pending poll (suc n) left k h =
    let rounds : suc n + suc left ≡ suc (suc (n + left)) = omega arith in
    let rounds' : suc (n + left) ≡ n + suc left = omega arith in
    let place : k + 1 + n ≡ k + suc n = omega arith in
    ap (λ m. wait_for_samples poll m k) rounds
    ∙ wait_for_samples-more poll (suc (n + left)) k h.0 h.1 (omega arith)
    ∙ ap (λ m. wait_for_samples poll m (k + 1)) rounds'
    ∙ wait_for_samples-Pending poll n left (k + 1) h.2
    ∙ ap (wait_for_samples poll (suc left)) place

-- What the call makes of the wait.
verdict : Option BaselineError → List Fingers → BaselineError ⊎ Fingers
verdict (some e) samples = inl e
verdict none samples = inr (baseline_of samples)

verdict-if :
    (a b : Bool) (x y : BaselineError) (samples : List Fingers)
    → verdict (if a then some x else if b then some y else none) samples
      ≡ (if a then inl x else if b then inl y else inr (baseline_of samples))
unfolding verdict
verdict-if true b x y samples = refl
verdict-if false true x y samples = refl
verdict-if false false x y samples = refl

verdict-elim :
    (r : Option BaselineError) (samples : List Fingers)
    → elim r [ some e ↦ inl e | none ↦ inr (baseline_of samples) ] ≡ verdict r samples
unfolding verdict
verdict-elim (some e) samples = refl
verdict-elim none samples = refl

find_baseline-ends :
    (poll : ℕ → ℕ × Bool) (n left : ℕ) (samples : List Fingers) (r : Option BaselineError)
    → n + suc left ≡ max_timeout
    → Pending poll n 0
    → wait_for_samples poll (suc left) n ≡ r
    → find_baseline true poll samples ≡ verdict r samples
unfolding find_baseline
find_baseline-ends poll n left samples r size h e =
    let place : 0 + n ≡ n = omega arith in
    let last : wait_for_samples poll max_timeout 0 ≡ r =
      ap (λ m. wait_for_samples poll m 0) (sym size)
      ∙ wait_for_samples-Pending poll n left 0 h
      ∙ ap (wait_for_samples poll (suc left)) place
      ∙ e in
    rw last (verdict-elim r samples)

-- What decides the call at poll `n`.
unfoldable pub Decides : (ℕ → ℕ × Bool) → ℕ → Type 0
Decides poll n = ((poll n).1 ≡ false) ⊎ ((n ≡ 499) ⊎ (sample_count ≤ (poll n).0))

before_last : (n : ℕ) → n < max_timeout → (n == 499) ≡ false → n < 499
before_last n h e = ground arith

decided :
    (poll : ℕ → ℕ × Bool) (n : ℕ)
    → n < max_timeout
    → Decides poll n
    → (left : ℕ) × (n + suc left ≡ max_timeout)
      × (wait_for_samples poll (suc left) n ≡ (
          if not (poll n).1
          then some connection_lost
          else if n == 499
          then some (timed_out (poll n).0)
          else none))
unfolding Decides
decided poll n h d = elim (Bool-cases (poll n).1) [
  | inr c ↦ (499 - n, omega arith, rw c (wait_for_samples-lost poll (499 - n) n c))
  | inl c ↦ elim (Bool-cases (n == 499)) [
    | inl e ↦ (0, omega (arith, ==→eq n 499 e), rw (c, e) (wait_for_samples-last poll n c))
    | inr e ↦ (
      499 - n,
      omega arith,
      rw (c, e)
          (wait_for_samples-enough poll (499 - n) n c
            (elim d [
              | inl lost ↦ absurd (cc (lost, c))
              | inr (inl last) ↦ absurd (cc (eq→== n 499 last, e))
              | inr (inr enough) ↦ enough
            ])
            (omega (arith, before_last n h e))),
    )
  ]
]

-- Let the sensor be connected and samples be missing in the first `n` polls, fewer than 500, and
-- let poll `n` find the connection lost, or be the 500th, or find 1000 samples. Then the call ends
-- there: with that error if the connection is lost, or else with a timeout at the 500th poll, which
-- reports the number of samples even if they are all there, or else with the baseline of the samples.
pub find_baseline-branches :
    (poll : ℕ → ℕ × Bool) (n : ℕ) (samples : List Fingers)
    → n < max_timeout
    → Pending poll n 0
    → Decides poll n
    → find_baseline true poll samples ≡ (
        if not (poll n).1
        then inl connection_lost
        else if n == 499
        then inl (timed_out (poll n).0)
        else inr (baseline_of samples))
find_baseline-branches poll n samples h pending d =
    let (left, size, e) = decided poll n h d in
    find_baseline-ends poll n left samples
      (if not (poll n).1
        then some connection_lost
        else if n == 499
        then some (timed_out (poll n).0)
        else none)
      size pending e
    ∙ verdict-if (not (poll n).1) (n == 499) connection_lost (timed_out (poll n).0) samples
