-- ===== src/Grippers/Wait/Polling.antt =====
-- The polling wait of include/Robotiq/gripper/wait.hpp, `pollUntil`, which its deprecated forms share.
-- A sleep between two polls is a `Wake`; the predicate looks at what the gripper reports.
use tactile_sensors.Base.{
  ℕ, Bool, Bool-cases, List, [], false, if◌then◌else◌, inl, inr, leb, leb→le, true, ◌∷◌, ◌≡◌, ◌≤◌,
}
use tactile_sensors.Grippers.Image.{ProcessImage, World, Wake, Blocked, waiting, returned, calls}

unfoldable pub poll_from : (ProcessImage → Bool) → ℕ → ProcessImage → ℕ → List Wake → Blocked Bool
poll_from predicate deadline image now [] =
    let here : World = record { image = image; now = now; wakes = [] } in
    if predicate image
    then returned true here
    else if leb deadline now
    then returned false here
    else waiting here
poll_from predicate deadline image now (k ∷ ks) =
    let here : World = record { image = image; now = now; wakes = k ∷ ks } in
    let rest = poll_from predicate deadline (calls image k.meanwhile) k.clock ks in
    if predicate image
    then returned true here
    else if leb deadline now
    then returned false here
    else rest

unfoldable pub poll_until : World → (ProcessImage → Bool) → ℕ → Blocked Bool
unfolding poll_from
poll_until w predicate deadline = poll_from predicate deadline w.image w.now w.wakes

-- What a poll reports is so when it returns.
abbrev pub Polled : (ProcessImage → Bool) → ℕ → Blocked Bool → Type 0
Polled predicate deadline (waiting u) = Unit {0}
Polled predicate deadline (returned true v) = predicate v.image ≡ true
Polled predicate deadline (returned false v) = (predicate v.image ≡ false) × (deadline ≤ v.now)

poll_from-Polled :
    (predicate : ProcessImage → Bool) (deadline : ℕ) (image : ProcessImage) (now : ℕ)
    (ks : List Wake)
    → Polled predicate deadline (poll_from predicate deadline image now ks)
unfolding poll_from
poll_from-Polled predicate deadline image now [] = elim (Bool-cases (predicate image)) [
  | inl e ↦ rw e e
  | inr e ↦ elim (Bool-cases (leb deadline now)) [
    | inl over ↦ rw (e, over) (e, leb→le deadline now over)
    | inr early ↦ rw (e, early) tt
  ]
]
poll_from-Polled predicate deadline image now (k ∷ ks) = elim (Bool-cases (predicate image)) [
  | inl e ↦ rw e e
  | inr e ↦ elim (Bool-cases (leb deadline now)) [
    | inl over ↦ rw (e, over) (e, leb→le deadline now over)
    | inr early ↦
        rw (e, early) (poll_from-Polled predicate deadline (calls image k.meanwhile) k.clock ks)
  ]
]

-- A poll reports success only when the predicate holds, and a timeout only when it does not hold at
-- that moment and the deadline is over.
pub poll_until-Polled :
    (w : World) (predicate : ProcessImage → Bool) (deadline : ℕ)
    → Polled predicate deadline (poll_until w predicate deadline)
unfolding poll_until
poll_until-Polled w predicate deadline = poll_from-Polled predicate deadline w.image w.now w.wakes
