-- ===== src/Grippers/Image/Sync.antt =====
-- Waiting on the image: when `ProcessImage::sync` of src/process_image.cpp returns, and what.
use tactile_sensors.Base.{
  ℕ, List, arith, false, true, ◌<◌, ◌∷◌, ◌≡◌, ◌≤◌, ◌⊎◌, [], Bool-cases, inl, inr, length, refl,
  subst,
}
use tactile_sensors.Grippers.Image.{
  Wake, World, count_of, keeps_waiting, calls, returned, ProcessImage, StampedExchange, sync_from,
  Blocked, sync, waiting,
}

-- Why a wait may end.
abbrev pub Settled : World → ℕ → ℕ → Type 0
Settled w count deadline =
    (count < count_of w.image.stamped) ⊎ (w.image.closed ≡ true) ⊎ (deadline ≤ w.now)

pub Settled-of_stop :
    (w : World) (count deadline : ℕ)
    → keeps_waiting w.image count deadline w.now ≡ false
    → Settled w count deadline
unfolding keeps_waiting
Settled-of_stop w count deadline h = ground arith

pub stop_of_Settled :
    (w : World) (count deadline : ℕ)
    → Settled w count deadline
    → keeps_waiting w.image count deadline w.now ≡ false
unfolding keeps_waiting
stop_of_Settled w count deadline h = ground arith

module _ (count deadline : ℕ) where
  -- A thread whose condition is met, or whose deadline has passed, does not wait.
  sync_from-stops :
      (image : ProcessImage) (now : ℕ) (ws : List Wake)
      → keeps_waiting image count deadline now ≡ false
      → sync_from image now ws count deadline
        ≡ returned image.stamped (record { image = image; now = now; wakes = ws })
  unfolding sync_from
  sync_from-stops image now [] h = rw h
  sync_from-stops image now (w ∷ ws) h = rw h

  -- A return within `n` remaining waits hands back the image's record, when the wait is over.
  abbrev Ends : ℕ → Blocked StampedExchange → Type 0
  Ends n (waiting u) = Unit
  Ends n (returned e v) =
      (e ≡ v.image.stamped)
      × (keeps_waiting v.image count deadline v.now ≡ false)
      × (length v.wakes ≤ n)

  Ends-mono : {m n : ℕ} (r : Blocked StampedExchange) → m ≤ n → Ends m r → Ends n r
  Ends-mono (waiting u) h ends = tt
  Ends-mono (returned e v) h ends = (ends.0, ends.1, omega arith)

  sync_from-Ends :
      (image : ProcessImage) (now : ℕ) (ws : List Wake)
      → Ends (length ws) (sync_from image now ws count deadline)
  unfolding sync_from
  sync_from-Ends image now [] = elim (Bool-cases (keeps_waiting image count deadline now)) [
    | inl more ↦ rw more tt
    | inr stop ↦ rw stop (refl, stop, omega arith)
  ]
  sync_from-Ends image now (w ∷ ws) =
      let image' = calls image w.meanwhile in
      elim (Bool-cases (keeps_waiting image count deadline now)) [
        | inl more ↦ rw more (
            Ends-mono (sync_from image' w.clock ws count deadline) (omega arith)
              (sync_from-Ends image' w.clock ws))
        | inr stop ↦ rw stop (refl, stop, omega arith)
      ]

  -- A thread that had to wait has used a wake up.
  sync_from-waits :
      (image : ProcessImage) (now : ℕ) (ws : List Wake) (e : StampedExchange) (v : World)
      → keeps_waiting image count deadline now ≡ true
      → sync_from image now ws count deadline ≡ returned e v
      → length v.wakes < length ws
  unfolding sync_from
  sync_from-waits image now [] e v more h = absurd (cc (rw more at h))
  sync_from-waits image now (w ∷ ws) e v more h =
      let rest : sync_from (calls image w.meanwhile) w.clock ws count deadline ≡ returned e v =
        rw more at h in
      let ends : Ends (length ws) (returned e v) =
        subst (Ends (length ws)) rest (sync_from-Ends (calls image w.meanwhile) w.clock ws) in
      omega arith

-- A `sync` returns only when the count has passed the given one, the image is closed or the deadline
-- is over, and then hands back the record that the image holds at that moment.
pub sync-Settled :
    (w : World) (count deadline : ℕ) (e : StampedExchange) (v : World)
    → sync w count deadline ≡ returned e v
    → (e ≡ v.image.stamped) × Settled v count deadline × (length v.wakes ≤ length w.wakes)
unfolding sync
sync-Settled w count deadline e v h =
    let ends : Ends count deadline (length w.wakes) (returned e v) =
      subst (Ends count deadline (length w.wakes)) h
        (sync_from-Ends count deadline w.image w.now w.wakes) in
    (ends.0, Settled-of_stop v count deadline ends.1, ends.2)

-- A `sync` whose condition holds at once returns at once, without a wait.
pub sync-instant :
    (w : World) (count deadline : ℕ)
    → Settled w count deadline
    → sync w count deadline ≡ returned w.image.stamped w
unfolding sync
sync-instant w count deadline s =
    sync_from-stops count deadline w.image w.now w.wakes (stop_of_Settled w count deadline s)

-- One that returns although its condition did not hold at first has waited.
pub sync-waits :
    (w : World) (count deadline : ℕ) (e : StampedExchange) (v : World)
    → ¬ Settled w count deadline
    → sync w count deadline ≡ returned e v
    → length v.wakes < length w.wakes
unfolding sync
sync-waits w count deadline e v not_settled h =
    elim (Bool-cases (keeps_waiting w.image count deadline w.now)) [
      | inl more ↦ sync_from-waits count deadline w.image w.now w.wakes e v more h
      | inr stop ↦ absurd (not_settled (Settled-of_stop w count deadline stop))
    ]
