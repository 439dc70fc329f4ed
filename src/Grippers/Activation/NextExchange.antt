-- ===== src/Grippers/Activation/NextExchange.antt =====
-- A wait of a procedure of src/gripper.cpp that ends with the next exchange, or that no exchange ends.
use tactile_sensors.Base.{
  Bool, List, [], ap, arith, false, inl, length, refl, some, suc, true, ◌%◌, ◌+◌, ◌-◌, ◌<◌, ◌^◌,
  ◌∙◌, ◌∷◌, ◌≡◌, ℕ, le→leb, lt→ltb, ge→ltb,
}
use tactile_sensors.Grippers.Activation.{wait_for_status}
use tactile_sensors.Grippers.Blocks.{GripperCommand, GripperStatus}
use tactile_sensors.Grippers.Image.{
  ProcessImage, Wake, World, calls, count_of, keeps_waiting, publish, publishes, returned, sync,
  waiting,
}
use tactile_sensors.Grippers.Image.Sync.{sync-instant}
use tactile_sensors.Grippers.Wait.{
  deadline_after, remaining, up_to, wait_for, wait_for_exchange_after, wait_for_exchange_count,
}
use tactile_sensors.Grippers.Wait.Counts.{wait_for_record-sync}
use tactile_sensors.Grippers.Wait.Outcome.{wait_from-found, wait_from-waiting}

-- One exchange that completes while a thread waits.
abbrev pub exchanged : GripperCommand → GripperStatus → ℕ → Wake
exchanged c s at = record { meanwhile = publishes c s at ∷ []; clock = at }

-- A thread that waits for it, and after it.
abbrev pub before_wake : ProcessImage → ℕ → GripperCommand → GripperStatus → ℕ → List Wake → World
before_wake image now c s at ks = record { image = image; now = now; wakes = exchanged c s at ∷ ks }

abbrev pub after_wake : ProcessImage → GripperCommand → GripperStatus → ℕ → List Wake → World
after_wake image c s at ks = record { image = publish image c s at; now = at; wakes = ks }

module _ (image : ProcessImage) (now at : ℕ) (c : GripperCommand) (s : GripperStatus)
    (ks : List Wake) (open_image : image.closed ≡ false)
    (small : count_of image.stamped + 2 < 2 ^ 64) where
  count_after : count_of (publish image c s at).stamped ≡ count_of image.stamped + 1
  unfolding publish
  count_after = omega arith

  keeps : (until : ℕ) → now < until → keeps_waiting image (count_of image.stamped) until now ≡ true
  unfolding keeps_waiting
  keeps until h =
      rw
        (
          le→leb (count_of image.stamped) (count_of image.stamped) (omega arith),
          open_image,
          lt→ltb now until h,
        )
        refl

  sync-next :
      (until : ℕ)
      → now < until
      → sync (before_wake image now c s at ks) (count_of image.stamped) until
        ≡ returned (publish image c s at).stamped (after_wake image c s at ks)
  unfolding sync calls
  sync-next until h = rw (keeps until h) (
      sync-instant (after_wake image c s at ks) (count_of image.stamped) until
        (inl (omega (arith, count_after))))

  abbrev desired : ℕ
  desired = (count_of image.stamped + 1) % 2 ^ 64

  up_to-next :
      up_to desired (returned (publish image c s at).stamped (after_wake image c s at ks))
      ≡ returned (some (publish image c s at).stamped) (after_wake image c s at ks)
  unfolding up_to publish
  up_to-next = rw (ge→ltb desired desired (omega arith)) refl

  wait-next :
      (timeout : ℕ)
      → 0 < timeout
      → wait_for_exchange_count (before_wake image now c s at ks) desired timeout
        ≡ returned (some (publish image c s at).stamped) (after_wake image c s at ks)
  unfolding wait_for_exchange_count deadline_after
  wait-next timeout h =
      let w = before_wake image now c s at ks in
      let until = deadline_after now timeout in
      let last : desired - 1 ≡ count_of image.stamped = omega arith in
      ap (up_to desired) (
        wait_for_record-sync w desired until (omega arith)
        ∙ ap (λ n. sync w n until) last
        ∙ sync-next until (omega arith))
      ∙ up_to-next

  pub wait_for_status-next :
      (predicate : GripperStatus → Bool) (deadline : ℕ)
      → now < deadline
      → predicate s ≡ true
      → wait_for_status (before_wake image now c s at ks) predicate deadline
        ≡ some (returned (some (publish image c s at).stamped) (after_wake image c s at ks))
  unfolding wait_for_status wait_for wait_for_exchange_after publish deadline_after remaining
  wait_for_status-next predicate deadline h holds =
      let fuel : length (exchanged c s at ∷ ks) + 2 ≡ suc (length ks + 2) = omega arith in
      rw fuel (
        wait_from-found (λ e. predicate e.status) (deadline_after now (remaining deadline now))
          (length ks + 2) desired (before_wake image now c s at ks) (publish image c s at).stamped
          (after_wake image c s at ks)
          (wait-next (remaining (deadline_after now (remaining deadline now)) now) (omega arith))
          holds)

  -- Without an exchange, and before its deadline, it waits.
  abbrev idle : World
  idle = record { image = image; now = now; wakes = [] }

  sync-blocked : (until : ℕ) → now < until → sync idle (count_of image.stamped) until ≡ waiting idle
  unfolding sync
  sync-blocked until h = rw (keeps until h) refl

  wait-blocked :
      (timeout : ℕ) → 0 < timeout → wait_for_exchange_count idle desired timeout ≡ waiting idle
  unfolding wait_for_exchange_count deadline_after up_to
  wait-blocked timeout h =
      let until = deadline_after now timeout in
      let last : desired - 1 ≡ count_of image.stamped = omega arith in
      ap (up_to desired) (
        wait_for_record-sync idle desired until (omega arith)
        ∙ ap (λ n. sync idle n until) last
        ∙ sync-blocked until (omega arith))

  pub wait_for_status-blocked :
      (predicate : GripperStatus → Bool) (deadline : ℕ)
      → now < deadline
      → wait_for_status idle predicate deadline ≡ some (waiting idle)
  unfolding wait_for_status wait_for wait_for_exchange_after deadline_after remaining
  wait_for_status-blocked predicate deadline h =
      wait_from-waiting (λ e. predicate e.status) (deadline_after now (remaining deadline now)) 1
        desired idle idle
        (wait-blocked (remaining (deadline_after now (remaining deadline now)) now) (omega arith))
