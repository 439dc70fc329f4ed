-- ===== src/Grippers/Wait/Counting.antt =====
-- What a wait on the image of src/process_image.cpp leaves of the exchanges to come, and of the clock.
use tactile_sensors.Base.{
  ℕ, List, [], arith, suc, ◌+◌, ◌<◌, ◌^◌, ◌∷◌, ◌≡◌, ◌≤◌, Bool-cases, inl, inr, length, refl, subst,
}
use tactile_sensors.Grippers.Image.{
  ProcessImage, Call, sets, publishes, closes, Wake, World, count_of, called, calls, Blocked,
  StampedExchange, keeps_waiting, publish, returned, sync, sync_from, waiting,
}

-- The exchanges that other threads publish.
unfoldable pub published : List Call → ℕ
published [] = 0
published (sets c ∷ cs) = published cs
published (publishes c s at ∷ cs) = suc (published cs)
published (closes ∷ cs) = published cs

unfoldable pub to_come : List Wake → ℕ
unfolding published
to_come [] = 0
to_come (k ∷ ks) = published k.meanwhile + to_come ks

-- The clock does not run backwards.
unfoldable pub Ticks : ℕ → List Wake → Type 0
Ticks now [] = Unit
Ticks now (k ∷ ks) = (now ≤ k.clock) × Ticks k.clock ks

-- The count that the image ends with, if it does not wrap.
abbrev pub final_count : World → ℕ
final_count w = count_of w.image.stamped + to_come w.wakes

pub count_of-calls :
    (image : ProcessImage) (cs : List Call)
    → count_of image.stamped + published cs < 2 ^ 64
    → count_of (calls image cs).stamped ≡ count_of image.stamped + published cs
unfolding published calls called publish
count_of-calls image [] h = omega arith
count_of-calls image (sets c ∷ cs) h = count_of-calls (called image (sets c)) cs h
count_of-calls image (publishes c s at ∷ cs) h =
    omega (arith, count_of-calls (called image (publishes c s at)) cs (omega arith))
count_of-calls image (closes ∷ cs) h = count_of-calls (called image closes) cs h

-- What a wait leaves: the counts still to come, the clock further on, and no more waits than before.
pub record Leaves (w v : World) : Type 0 where
  pub counts : final_count v ≡ final_count w
  pub ticks : Ticks v.now v.wakes
  pub later : w.now ≤ v.now
  pub waits : length v.wakes ≤ length w.wakes

abbrev LeavesAfter : World → Blocked StampedExchange → Type 0
LeavesAfter w (waiting u) = Unit
LeavesAfter w (returned e v) = Leaves w v

Leaves-self : (w : World) → Ticks w.now w.wakes → Leaves w w
Leaves-self w t = record { counts = refl; ticks = t; later = omega arith; waits = omega arith }

LeavesAfter-woken :
    (image : ProcessImage) (now : ℕ) (k : Wake) (ks : List Wake) (r : Blocked StampedExchange)
    → count_of image.stamped + to_come (k ∷ ks) < 2 ^ 64
    → now ≤ k.clock
    → LeavesAfter (record { image = calls image k.meanwhile; now = k.clock; wakes = ks }) r
    → LeavesAfter (record { image = image; now = now; wakes = k ∷ ks }) r
unfolding to_come
LeavesAfter-woken image now k ks (waiting u) h t l = tt
LeavesAfter-woken image now k ks (returned e v) h t l = record {
  counts = omega (arith, l.counts, count_of-calls image k.meanwhile (omega arith));
  ticks = l.ticks;
  later = omega (arith, l.later);
  waits = omega (arith, l.waits);
}

pub to_come-woken :
    (k : Wake) (ks : List Wake) → to_come (k ∷ ks) ≡ published k.meanwhile + to_come ks
unfolding to_come
to_come-woken k ks = refl

sync_from-Leaves :
    (count deadline : ℕ) (image : ProcessImage) (now : ℕ) (ks : List Wake)
    → count_of image.stamped + to_come ks < 2 ^ 64
    → Ticks now ks
    → LeavesAfter
        (record { image = image; now = now; wakes = ks })
        (sync_from image now ks count deadline)
unfolding sync_from Ticks
sync_from-Leaves count deadline image now [] h t =
    elim (Bool-cases (keeps_waiting image count deadline now)) [
      | inl more ↦ rw more tt
      | inr stop ↦ rw stop (Leaves-self (record { image = image; now = now; wakes = [] }) t)
    ]
sync_from-Leaves count deadline image now (k ∷ ks) h t =
    elim (Bool-cases (keeps_waiting image count deadline now)) [
      | inl more ↦ rw more (
          LeavesAfter-woken image now k ks
            (sync_from (calls image k.meanwhile) k.clock ks count deadline) h t.0
            (sync_from-Leaves count deadline (calls image k.meanwhile) k.clock ks
              (omega (
                arith,
                to_come-woken k ks,
                count_of-calls image k.meanwhile (omega (arith, to_come-woken k ks)),
              ))
              t.1))
      | inr stop ↦ rw stop (Leaves-self (record { image = image; now = now; wakes = k ∷ ks }) t)
    ]

pub sync-Leaves :
    (w : World) (count deadline : ℕ) (e : StampedExchange) (v : World)
    → final_count w < 2 ^ 64
    → Ticks w.now w.wakes
    → sync w count deadline ≡ returned e v
    → Leaves w v
unfolding sync
sync-Leaves w count deadline e v h t q =
    subst (LeavesAfter w) q (sync_from-Leaves count deadline w.image w.now w.wakes h t)
