-- ===== src/Grippers/Wait/Counts.antt =====
-- One wait for a count, `Gripper::waitForExchangeCount` of src/gripper.cpp.
use tactile_sensors.Base.{
  ℕ, length, Bool-cases, List, ◌∷◌, Option, arith, inl, inr, ltb, none, not-zero, refl, some, subst,
  true, ◌*◌, ◌+◌, ◌-◌, ◌<◌, ◌^◌, ◌≡◌, ◌≤◌, ◌⊎◌, ltb→lt, sym,
}
use tactile_sensors.Grippers.Image.{
  Call, calls, StampedExchange, World, Blocked, waiting, returned, count_of, keeps_waiting, sync,
}
use tactile_sensors.Grippers.Image.Sync.{
  Settled-of_stop, stop_of_Settled, sync-Settled, sync-instant, sync-waits, Settled,
}
use tactile_sensors.Grippers.Wait.{
  up_to, deadline_after, longest, nanoseconds, remaining, wait_for_record, wait_for_exchange_count,
}
use tactile_sensors.Grippers.Wait.Counting.{
  Leaves, Ticks, count_of-calls, final_count, sync-Leaves, to_come-woken,
}

-- A waiting thread whose clock does not run backwards, before the counts run out.
pub record IsSteady (w : World) : Type 0 where
  pub ticks : Ticks w.now w.wakes
  pub counts : final_count w + 1 < 2 ^ 64

-- A thread that other threads get ahead of before it waits.
abbrev pub overtaken : World → List Call → World
overtaken w between = record w { wakes = record { meanwhile = between; clock = w.now } ∷ w.wakes }

pub overtaken-IsSteady :
    (w : World) (between : List Call)
    → IsSteady (overtaken w between)
    → IsSteady (record w { image = calls w.image between })
unfolding Ticks
overtaken-IsSteady w between s = record {
  ticks = s.ticks.1;
  counts =
      let ahead = to_come-woken (record { meanwhile = between; clock = w.now }) w.wakes in
      omega
        (arith, s.counts, ahead, count_of-calls w.image between (omega (arith, s.counts, ahead)));
}

pub Leaves-IsSteady : (w v : World) → Leaves w v → IsSteady w → IsSteady v
Leaves-IsSteady w v l s = record { ticks = l.ticks; counts = omega (arith, l.counts, s.counts) }

-- The wait is over by its deadline at the latest.
unfoldable pub IsOver : ℕ → World → Type 0
IsOver deadline v = (v.image.closed ≡ true) ⊎ (deadline ≤ v.now)

-- What one wait for a count leads to.
unfoldable pub Counted : World → ℕ → ℕ → Blocked (Option StampedExchange) → Type 0
Counted w desired deadline (waiting u) = Unit
Counted w desired deadline (returned none v) = Leaves w v × IsOver deadline v
Counted w desired deadline (returned (some e) v) =
    Leaves w v
    × (e ≡ v.image.stamped)
    × (desired ≤ count_of e)
    × ((desired ≤ count_of w.image.stamped) ⊎ (length v.wakes < length w.wakes))

deadline_after-remaining :
    (deadline now : ℕ)
    → deadline ≤ now + longest * nanoseconds
    → deadline ≤ deadline_after now (remaining deadline now)
unfolding deadline_after remaining
deadline_after-remaining deadline now h = omega arith

pub deadline_after-soon :
    (now timeout : ℕ) → deadline_after now timeout ≤ now + longest * nanoseconds
unfolding deadline_after
deadline_after-soon now timeout = omega arith

-- A wait that brings an exchange that was not there has used a wake-up.
sync-progress :
    (w v : World) (desired deadline : ℕ) (e : StampedExchange)
    → 0 < desired
    → sync w (desired - 1) deadline ≡ returned e v
    → desired ≤ count_of e
    → (desired ≤ count_of w.image.stamped) ⊎ (length v.wakes < length w.wakes)
sync-progress w v desired deadline e pos q h =
    elim (Bool-cases (keeps_waiting w.image (desired - 1) deadline w.now)) [
      | inl more ↦ inr (
          sync-waits w (desired - 1) deadline e v
            (λ s. absurd (cc (stop_of_Settled w (desired - 1) deadline s, more))) q)
      | inr stop ↦
          (let now =
              sync-instant w (desired - 1) deadline
                (Settled-of_stop w (desired - 1) deadline stop) in
            let same : e ≡ w.image.stamped = cc (now, q) in
            inl (subst (λ e. desired ≤ count_of e) same h))
    ]

pub wait_for_record-sync :
    (w : World) (desired deadline : ℕ)
    → 0 < desired
    → wait_for_record w desired deadline ≡ sync w (desired - 1) deadline
unfolding wait_for_record
wait_for_record-sync w desired deadline pos = rw (not-zero desired pos) refl

IsOver-by_then :
    (v : World) (desired deadline until : ℕ)
    → Settled v (desired - 1) until
    → count_of v.image.stamped < desired
    → deadline ≤ until
    → IsOver deadline v
unfolding IsOver
IsOver-by_then v desired deadline until (inl passed) short h = absurd (omega arith)
IsOver-by_then v desired deadline until (inr (inl closed)) short h = inl closed
IsOver-by_then v desired deadline until (inr (inr over)) short h = inr (omega arith)

up_to-Counted :
    (w : World) (desired deadline until : ℕ) (r : Blocked StampedExchange)
    → 0 < desired
    → IsSteady w
    → deadline ≤ until
    → sync w (desired - 1) until ≡ r
    → Counted w desired deadline (up_to desired r)
unfolding Counted up_to
up_to-Counted w desired deadline until (waiting u) pos s h q = tt
up_to-Counted w desired deadline until (returned e v) pos s h q =
    let settled = sync-Settled w (desired - 1) until e v q in
    let leaves = sync-Leaves w (desired - 1) until e v (omega (arith, s.counts)) s.ticks q in
    elim (Bool-cases (ltb (count_of e) desired)) [
      | inl short ↦
          (let low : count_of v.image.stamped < desired =
              subst (λ x. count_of x < desired) settled.0 (ltb→lt (count_of e) desired short) in
            rw short (leaves, IsOver-by_then v desired deadline until settled.1 low h))
      | inr there ↦
          (let high : desired ≤ count_of e = ground arith in
            rw there (leaves, settled.0, high, sync-progress w v desired until e pos q high))
    ]

pub wait_for_exchange_count-Counted :
    (w : World) (desired deadline : ℕ)
    → 0 < desired
    → IsSteady w
    → deadline ≤ w.now + longest * nanoseconds
    → Counted w desired deadline (wait_for_exchange_count w desired (remaining deadline w.now))
unfolding wait_for_exchange_count
wait_for_exchange_count-Counted w desired deadline pos s soon =
    let until = deadline_after w.now (remaining deadline w.now) in
    subst (λ r. Counted w desired deadline (up_to desired r))
      (sym (wait_for_record-sync w desired until pos))
      (up_to-Counted w desired deadline until (sync w (desired - 1) until) pos s
        (deadline_after-remaining deadline w.now soon) refl)
