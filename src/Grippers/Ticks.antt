-- ===== src/Grippers/Ticks.antt =====
-- The tick arithmetic of the ThreadX port: `blockingTicks` of ports/threadx/threadx_ticks.hpp. The
-- kernel's TX_TIMER_TICKS_PER_SECOND and TX_WAIT_FOREVER are arguments. A duration that is not
-- positive is 0.
use tactile_sensors.Base.{
  ℕ, if◌then◌else◌, min, ◌*◌, ◌+◌, ◌-◌, ◌/◌, ◌<◌, ◌==◌, ◌^◌, ◌≡◌, ◌≤◌, ◌⊎◌, ==→eq, Bool-cases, ap,
  arith, inl, inr, same, ℕ_discrete,
}
use native.Mathlib.Nat.{div-mul-le_self, lt-div-mul-add, mul-le-mul_right, one-le-mul}

abbrev pub ns_per_second : ℕ
ns_per_second = 1_000_000_000

unfoldable pub max_ticks : ℕ → ℕ
max_ticks wait_forever = wait_forever - 1

unfoldable pub max_ns : ℕ → ℕ → ℕ
unfolding max_ticks
max_ns per_second wait_forever = max_ticks wait_forever * ns_per_second / per_second

unfoldable pub blocking_ticks : ℕ → ℕ → ℕ → ℕ
unfolding max_ns
blocking_ticks per_second wait_forever duration =
    if duration == 0
    then 0
    else (min duration (max_ns per_second wait_forever) * per_second + ns_per_second - 1)
      / ns_per_second

-- The ticks that a duration is worth: they are a finite wait, some unless the duration is 0, at least
-- as long as the duration or as the longest wait, and less than a tick longer than the duration. Every
-- number on the way fits in an int64_t.
pub record IsTicks (per_second wait_forever duration ticks : ℕ) : Type 0 where
  pub finite : ticks < wait_forever
  pub some_left : (duration ≡ 0) ⊎ (0 < ticks)
  pub covers :
      (duration * per_second ≤ ticks * ns_per_second)
      ⊎ (max_ns per_second wait_forever * per_second ≤ ticks * ns_per_second)
  pub tight : ticks * ns_per_second < duration * per_second + ns_per_second
  pub in_range : min duration (max_ns per_second wait_forever) * per_second + ns_per_second < 2 ^ 63

-- A tick rate of a gigahertz at most, and waits of up to 32 bits.
pub record Fits (per_second wait_forever : ℕ) : Type 0 where
  pub ticking : 0 < per_second
  pub slow : per_second ≤ ns_per_second
  pub waiting_long : 1 < wait_forever
  pub word : wait_forever < 2 ^ 32

max_ns-fits :
    (per_second wait_forever : ℕ)
    → max_ns per_second wait_forever * per_second ≤ (wait_forever - 1) * ns_per_second
unfolding max_ns
max_ns-fits per_second wait_forever =
    div-mul-le_self ((wait_forever - 1) * ns_per_second) per_second

max_ns-pos :
    (per_second wait_forever : ℕ)
    → Fits per_second wait_forever
    → 0 < max_ns per_second wait_forever
unfolding max_ns
max_ns-pos per_second wait_forever f =
    let n = (wait_forever - 1) * ns_per_second in
    let above : n < n / per_second * per_second + per_second =
      lt-div-mul-add {a = n} {b = per_second} f.ticking in
    elim (ℕ_discrete (n / per_second) 0) [
      | yes e ↦
          absurd (omega (arith, above, f.slow, f.waiting_long, ap (λ (x : ℕ). x * per_second) e))
      | no e ↦ omega (arith, e)
    ]

-- The nanoseconds that are rounded up to ticks.
record IsCounted (per_second wait_forever duration ns : ℕ) : Type 0 where
  fit : ns * per_second ≤ (wait_forever - 1) * ns_per_second
  within : ns * per_second ≤ duration * per_second
  all : (ns ≡ duration) ⊎ (ns ≡ max_ns per_second wait_forever)
  some_ns : (duration ≡ 0) ⊎ (0 < ns * per_second)

min-IsCounted :
    (per_second wait_forever duration : ℕ)
    → Fits per_second wait_forever
    → IsCounted per_second wait_forever duration (min duration (max_ns per_second wait_forever))
min-IsCounted per_second wait_forever duration f =
    let top = max_ns per_second wait_forever in
    let below : min duration top ≤ top = omega arith in
    let below' : min duration top ≤ duration = omega arith in
    let all : (min duration top ≡ duration) ⊎ (min duration top ≡ top) = omega arith in
    record {
      fit = omega (arith, mul-le-mul_right per_second below, max_ns-fits per_second wait_forever);
      within = mul-le-mul_right per_second below';
      all = all;
      some_ns = elim (ℕ_discrete duration 0) [
        | yes e ↦ inl e
        | no e ↦ inr (one-le-mul (omega (arith, e, max_ns-pos per_second wait_forever f)) f.ticking)
      ];
    }

-- For a kernel whose tick rate is a gigahertz at most and whose waits have up to 32 bits, the ticks of
-- every duration are a finite wait, some unless the duration is 0, at least as long as the duration or
-- as the longest wait, and less than a tick longer than the duration; and no number on the way leaves
-- int64_t.
pub blocking_ticks-IsTicks :
    (per_second wait_forever duration : ℕ)
    → Fits per_second wait_forever
    → IsTicks per_second wait_forever duration (blocking_ticks per_second wait_forever duration)
unfolding blocking_ticks
blocking_ticks-IsTicks per_second wait_forever duration f =
    let ns = min duration (max_ns per_second wait_forever) in
    let c = min-IsCounted per_second wait_forever duration f in
    let small : ns * per_second + ns_per_second < 2 ^ 63 = omega (arith, c.fit, f.word) in
    elim (Bool-cases (duration == 0)) [
      | inl e ↦
          (let zero_duration : duration ≡ 0 = ==→eq duration 0 e in
            rw e (record {
              finite = omega (arith, f.waiting_long);
              some_left = inl zero_duration;
              covers = inl (rw zero_duration (omega arith));
              tight = omega arith;
              in_range = small;
            }))
      | inr e ↦ rw e (record {
        finite = omega (arith, c.fit, f.waiting_long);
        some_left = elim c.some_ns [ inl z ↦ inl z | inr z ↦ inr (omega (arith, z)) ];
        covers = elim c.all [
          | inl same ↦ inl (omega (arith, ap (λ (x : ℕ). x * per_second) same))
          | inr same ↦ inr (omega (arith, ap (λ (x : ℕ). x * per_second) same))
        ];
        tight = omega (arith, c.within);
        in_range = small;
      })
    ]
