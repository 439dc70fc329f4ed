-- ===== src/Grippers/Activation/Sole.antt =====
-- The waits of include/Robotiq/gripper/wait.hpp leave the command as it is, if nobody else sets one.
use tactile_sensors.Base.{
  ℕ, Bool-cases, List, [], inl, inr, refl, ◌∙◌, ◌∷◌, ◌≡◌, Bool, Option, none, some, subst, suc,
  zero, ◌%◌, ◌+◌, ◌-◌, ◌==◌, ◌^◌,
}
use tactile_sensors.Grippers.Wait.{
  deadline_after, up_to, wait_for, wait_for_exchange_after, wait_for_exchange_count,
  wait_for_record, wait_from, remaining,
}
use tactile_sensors.Grippers.Wait.Outcome.{
  Option-Blocked_cases, wait_from-again, wait_from-found, wait_from-none, wait_from-waiting,
}
use tactile_sensors.Grippers.Blocks.{GripperStatus}
use tactile_sensors.Grippers.Activation.{wait_for_status}
use tactile_sensors.Grippers.Image.{
  ProcessImage, Call, sets, publishes, closes, Wake, World, Blocked, waiting, returned, called,
  calls, publish, close, keeps_waiting, sync_from, StampedExchange, count_of, sync,
}

-- Other threads set no command.
unfoldable pub NoSets : List Call → Type 0
NoSets [] = Unit
NoSets (sets c ∷ cs) = ⊥
NoSets (publishes c s at ∷ cs) = NoSets cs
NoSets (closes ∷ cs) = NoSets cs

unfoldable pub IsSole : List Wake → Type 0
unfolding NoSets
IsSole [] = Unit
IsSole (k ∷ ks) = NoSets k.meanwhile × IsSole ks

-- A wait leaves the command as it was.
unfoldable pub Keeps : World → World → Type 0
Keeps w v = (v.image.command ≡ w.image.command) × IsSole v.wakes

unfoldable pub KeepsAfter : {A : Type 0} → World → Blocked A → Type 0
unfolding Keeps
KeepsAfter w (waiting u) = Unit
KeepsAfter w (returned a v) = Keeps w v

command-calls :
    (image : ProcessImage) (cs : List Call) → NoSets cs → (calls image cs).command ≡ image.command
unfolding NoSets calls called publish close
command-calls image [] h = refl
command-calls image (sets c ∷ cs) h = absurd h
command-calls image (publishes c s at ∷ cs) h = command-calls (called image (publishes c s at)) cs h
command-calls image (closes ∷ cs) h = command-calls (called image closes) cs h

KeepsAfter-trans :
    {A : Type 0}
    → (w u : World) (r : Blocked A) → u.image.command ≡ w.image.command
    → KeepsAfter u r
    → KeepsAfter w r
unfolding Keeps KeepsAfter
KeepsAfter-trans w u (waiting x) e k = tt
KeepsAfter-trans w u (returned a v) e k = (k.0 ∙ e, k.1)

sync_from-Keeps :
    (count deadline : ℕ) (image : ProcessImage) (now : ℕ) (ks : List Wake)
    → IsSole ks
    → KeepsAfter
        (record { image = image; now = now; wakes = ks })
        (sync_from image now ks count deadline)
unfolding IsSole sync_from Keeps KeepsAfter
sync_from-Keeps count deadline image now [] h =
    elim (Bool-cases (keeps_waiting image count deadline now)) [
      | inl more ↦ rw more tt
      | inr stop ↦ rw stop (refl, tt)
    ]
sync_from-Keeps count deadline image now (k ∷ ks) h =
    elim (Bool-cases (keeps_waiting image count deadline now)) [
      | inl more ↦ rw more (
          KeepsAfter-trans (record { image = image; now = now; wakes = k ∷ ks })
            (record { image = calls image k.meanwhile; now = k.clock; wakes = ks })
            (sync_from (calls image k.meanwhile) k.clock ks count deadline)
            (command-calls image k.meanwhile h.0)
            (sync_from-Keeps count deadline (calls image k.meanwhile) k.clock ks h.1))
      | inr stop ↦ rw stop (refl, h)
    ]

up_to-Keeps :
    (w : World) (desired : ℕ) (r : Blocked StampedExchange)
    → KeepsAfter w r
    → KeepsAfter w (up_to desired r)
unfolding up_to KeepsAfter
up_to-Keeps w desired (waiting u) k = tt
up_to-Keeps w desired (returned e v) k = k

wait_for_record-Keeps :
    (w : World) (desired deadline : ℕ)
    → IsSole w.wakes
    → KeepsAfter w (wait_for_record w desired deadline)
unfolding wait_for_record sync Keeps KeepsAfter
wait_for_record-Keeps w desired deadline h = elim (Bool-cases (desired == 0)) [
  | inl none_needed ↦ rw (wait_for_record, none_needed) (refl, h)
  | inr some_needed ↦
      rw (wait_for_record, some_needed)
        (sync_from-Keeps (desired - 1) deadline w.image w.now w.wakes h)
]

wait_for_exchange_count-Keeps :
    (w : World) (desired timeout : ℕ)
    → IsSole w.wakes
    → KeepsAfter w (wait_for_exchange_count w desired timeout)
unfolding wait_for_exchange_count
wait_for_exchange_count-Keeps w desired timeout h =
    up_to-Keeps w desired (wait_for_record w desired (deadline_after w.now timeout))
      (wait_for_record-Keeps w desired (deadline_after w.now timeout) h)

-- The same of a loop of waits.
unfoldable pub KeepsAll : {A : Type 0} → World → Option (Blocked A) → Type 0
unfolding KeepsAfter
KeepsAll w none = Unit
KeepsAll w (some r) = KeepsAfter w r

KeepsAll-trans :
    {A : Type 0}
    → (w u : World) (r : Option (Blocked A)) → u.image.command ≡ w.image.command
    → KeepsAll u r
    → KeepsAll w r
unfolding KeepsAll
KeepsAll-trans w u none e k = tt
KeepsAll-trans w u (some r) e k = KeepsAfter-trans w u r e k

wait_from-zero :
    (predicate : StampedExchange → Bool) (deadline desired : ℕ) (w : World)
    → wait_from predicate deadline zero desired w ≡ none
unfolding wait_from
wait_from-zero predicate deadline desired w = refl

wait_from-Keeps :
    (predicate : StampedExchange → Bool) (deadline fuel desired : ℕ) (w : World)
    → IsSole w.wakes
    → KeepsAll w (wait_from predicate deadline fuel desired w)
unfolding Keeps KeepsAfter KeepsAll
wait_from-Keeps predicate deadline zero desired w h =
    rw (wait_from-zero predicate deadline desired w) tt
wait_from-Keeps predicate deadline (suc fuel) desired w h =
    let r = wait_for_exchange_count w desired (remaining deadline w.now) in
    let kept = wait_for_exchange_count-Keeps w desired (remaining deadline w.now) h in
    elim (Option-Blocked_cases r) [
      | inl (u, q) ↦ rw (wait_from-waiting predicate deadline fuel desired w u q) tt
      | inr (inl (v, q)) ↦
          rw (wait_from-none predicate deadline fuel desired w v q) (subst (KeepsAfter w) q kept)
      | inr (inr (e, v, q)) ↦
          (let k = subst (KeepsAfter w) q kept in
            elim (Bool-cases (predicate e)) [
              | inl holds ↦ rw (wait_from-found predicate deadline fuel desired w e v q holds) k
              | inr fails ↦ rw (wait_from-again predicate deadline fuel desired w e v q fails) (
                  KeepsAll-trans w v
                    (wait_from predicate deadline fuel ((count_of e + 1) % 2 ^ 64) v) k.0
                    (wait_from-Keeps predicate deadline fuel ((count_of e + 1) % 2 ^ 64) v k.1))
            ])
    ]

pub wait_for_status-Keeps :
    (w : World) (predicate : GripperStatus → Bool) (deadline : ℕ)
    → IsSole w.wakes
    → KeepsAll w (wait_for_status w predicate deadline)
unfolding wait_for_status wait_for wait_for_exchange_after
wait_for_status-Keeps w predicate deadline h = wait_from-Keeps (λ e. predicate e.status) _ _ _ w h
