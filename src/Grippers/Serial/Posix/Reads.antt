-- ===== src/Grippers/Serial/Posix/Reads.antt =====
-- `SerialPort::read` of src/detail/posix/serial_port.cpp: which bytes it hands back, and when.
use tactile_sensors.Base.{
  Bool-cases, List, [], append-nil, append_assoc, arith, inl, inr, length, length-append, leb→le,
  ltb→lt, refl, subst, true, ◌++◌, ◌∷◌, ◌≡◌, ◌⊎◌, ap, sym, ◌∙◌, ◌≤◌, ◌<◌, ◌+◌, ◌*◌, ◌-◌, ℕ, ltb,
  leb,
}
use tactile_sensors.Grippers.Serial.{Result, ok, threw, is_eintr, is_eagain}
use tactile_sensors.Grippers.Serial.Posix.{
  Collected, Ending, Got, Next, Round, WaitResult, again, await_input, awaited_input, failed, fails,
  got, int32_max, interrupted, nothing_collected, ns_per_ms, read, read_got, read_round, ready,
  refused, returned, run, running, stop, timed_out, wait_ready,
}
use tactile_sensors.Grippers.Serial.Posix.Poll.{IsClocked, deadline_passed}
use tactile_sensors.Grippers.Serial.Posix.Loop.{Ended, run-Ended}

abbrev pub got_bytes : Got → List ℕ
got_bytes (got bs) = bs
got_bytes (refused e) = []

-- All the bytes that the rounds brought, in order.
abbrev pub delivered : List (Round Got) → List ℕ
delivered [] = []
delivered (r ∷ rs) = got_bytes r.answer ++ delivered rs

delivered-append : (rs qs : List (Round Got)) → delivered (rs ++ qs) ≡ delivered rs ++ delivered qs
delivered-append [] qs = refl
delivered-append (r ∷ rs) qs =
    rw (delivered-append rs qs, append_assoc (got_bytes r.answer) (delivered rs) (delivered qs))
      refl

-- `read` is never given more bytes than it asks for, `n` at first; and the clock goes on.
abbrev pub IsServed : ℕ → ℕ → ℕ → List (Round Got) → Type 0
IsServed start timeout n [] = Unit
IsServed start timeout n (r ∷ rs) =
    (length (got_bytes r.answer) ≤ n)
    × IsClocked (λ now. (start + timeout * ns_per_ms) - now) start r
    × IsServed start timeout (n - length (got_bytes r.answer)) rs

-- What a round leads to.
abbrev Follows : ℕ → Collected → Round Got → Next Collected → Type 0
Follows deadline c r (again c') = c'.bytes ≡ c.bytes ++ got_bytes r.answer
Follows deadline c r stop =
    (got_bytes r.answer ≡ []) × ((deadline ≤ r.asked_at) ⊎ (wait_ready r.polled ≡ ok timed_out))
Follows deadline c r (fails e) = got_bytes r.answer ≡ []

awaited_input-Follows :
    (deadline : ℕ) (c : Collected) (r : Round Got) (w : Result WaitResult)
    → got_bytes r.answer ≡ []
    → wait_ready r.polled ≡ w
    → Follows deadline c r (awaited_input c.bytes w)
unfolding awaited_input
awaited_input-Follows deadline c r (ok ready) h e = rw (h, append-nil c.bytes) refl
awaited_input-Follows deadline c r (ok interrupted) h e = rw (h, append-nil c.bytes) refl
awaited_input-Follows deadline c r (ok timed_out) h e = (h, inr e)
awaited_input-Follows deadline c r (threw x) h e = h

await_input-Follows :
    (deadline : ℕ) (c : Collected) (r : Round Got)
    → got_bytes r.answer ≡ []
    → Follows deadline c r (await_input deadline c.bytes r)
unfolding await_input
await_input-Follows deadline c r h = elim (Bool-cases (leb deadline r.asked_at)) [
  | inl e ↦ rw e (h, inl (leb→le _ _ e))
  | inr e ↦ rw e (awaited_input-Follows deadline c r (wait_ready r.polled) h refl)
]

read_got-Follows :
    (deadline : ℕ) (c : Collected) (r : Round Got) (a : Got)
    → r.answer ≡ a
    → Follows deadline c r (read_got deadline c r a)
unfolding read_got
read_got-Follows deadline c r (got (b ∷ bs)) e = rw e refl
read_got-Follows deadline c r (got []) e = elim (Bool-cases c.readable) [
  | inl h ↦ rw h (ap got_bytes e)
  | inr h ↦ rw h (await_input-Follows deadline c r (ap got_bytes e))
]
read_got-Follows deadline c r (refused x) e = elim (Bool-cases (is_eintr x)) [
  | inl h ↦ rw h (rw (ap got_bytes e, append-nil c.bytes) refl)
  | inr h ↦ rw h (elim (Bool-cases (is_eagain x)) [
    | inl k ↦ rw k (await_input-Follows deadline c r (ap got_bytes e))
    | inr k ↦ rw k (ap got_bytes e)
  ])
]

module _ (size timeout now : ℕ) where
  abbrev deadline : ℕ
  deadline = now + timeout * ns_per_ms

  -- What holds between two rounds.
  record IsReading (c : Collected) (used rest : List (Round Got)) : Type 0 where
    collected : c.bytes ≡ delivered used
    room : length c.bytes ≤ size
    served : IsServed now timeout (size - length c.bytes) rest

  keep :
      (c c' : Collected) (used : List (Round Got)) (r : Round Got) (rest : List (Round Got))
      → IsReading c used (r ∷ rest)
      → ltb (length c.bytes) size ≡ true
      → read_round deadline c r ≡ again c'
      → IsReading c' (used ++ r ∷ []) rest
  unfolding read_round
  keep c c' used r rest h on e =
      let grown : c'.bytes ≡ c.bytes ++ got_bytes r.answer =
        subst (Follows deadline c r) e (read_got-Follows deadline c r r.answer refl) in
      let sum : length c'.bytes ≡ length c.bytes + length (got_bytes r.answer) =
        ap length grown ∙ length-append c.bytes (got_bytes r.answer) in
      record {
        collected =
            grown
            ∙ ap (λ bs. bs ++ got_bytes r.answer) h.collected
            ∙ sym (rw (delivered-append used (r ∷ []), append-nil (got_bytes r.answer)) refl);
        room = omega (arith, h.served.0);
        served = subst (λ n. IsServed now timeout n rest) (omega arith) h.served.2;
      }

  -- How a read ends.
  abbrev pub Reads : List (Round Got) → Ending Collected × List (Round Got) → Type 0
  Reads rounds (returned c, rest) =
      ((used : List (Round Got)) × (rounds ≡ used ++ rest)
        × (c.bytes ≡ delivered used)
        × (length c.bytes ≡ size))
      ⊎ ((used : List (Round Got)) × (r : Round Got) × (rounds ≡ used ++ r ∷ rest)
          × (c.bytes ≡ delivered used)
          × (length c.bytes ≤ size)
          × (got_bytes r.answer ≡ [])
          × (deadline ≤ r.polled_at))
  Reads rounds (failed e c, rest) =
      (used : List (Round Got)) × (r : Round Got) × (rounds ≡ used ++ r ∷ rest)
      × (c.bytes ≡ delivered used)
      × (length c.bytes ≤ size)
      × (got_bytes r.answer ≡ [])
  Reads rounds (running c, rest) =
      (rest ≡ []) × (c.bytes ≡ delivered rounds) × (length c.bytes < size)

  stops :
      (c : Collected) (used : List (Round Got)) (r : Round Got) (rest : List (Round Got))
      → timeout ≤ int32_max
      → IsReading c used (r ∷ rest)
      → read_round deadline c r ≡ stop
      → (got_bytes r.answer ≡ []) × (deadline ≤ r.polled_at)
  unfolding read_round
  stops c used r rest short h e =
      let clock : IsClocked (λ t. deadline - t) now r = h.served.1 in
      let (silent, why) =
        subst (Follows deadline c r) e (read_got-Follows deadline c r r.answer refl) in
      let asked : r.asked_at ≤ r.polled_at = clock.after_asked in
      (
        silent,
        elim why [
          | inl late ↦ omega arith
          | inr over ↦ deadline_passed now timeout r clock short over
        ],
      )

  Reads-Ended :
      (rounds : List (Round Got)) (e : Ending Collected × List (Round Got))
      → timeout ≤ int32_max
      → Ended (λ c. ltb (length c.bytes) size) (read_round deadline) IsReading [] rounds e
      → Reads rounds e
  unfolding read_round
  Reads-Ended rounds (returned c, rest) short (inl (used, split, h, over)) =
      inl (used, split, h.collected, ground (arith, h.room))
  Reads-Ended rounds (returned c, rest) short (inr (used, r, split, h, e)) =
      let (silent, late) = stops c used r rest short h e in
      inr (used, r, split, h.collected, h.room, silent, late)
  Reads-Ended rounds (failed x c, rest) short (used, r, split, h, e) = (
    used,
    r,
    split,
    h.collected,
    h.room,
    subst (Follows deadline c r) e (read_got-Follows deadline c r r.answer refl),
  )
  Reads-Ended rounds (running c, rest) short (none_left, h, on) =
      (none_left, h.collected, ltb→lt _ _ on)

  -- A read with a timeout below 2^31 milliseconds, on a port that never hands over more than it is
  -- asked for and with a clock that does not run backwards, hands back all the bytes that the port
  -- has given it, in order, and never more than asked for; it hands back fewer only when the deadline
  -- has passed. It throws only in a round that brings no bytes, and while it runs there is room.
  pub read-Reads :
      (rounds : List (Round Got))
      → timeout ≤ int32_max
      → IsServed now timeout size rounds
      → Reads rounds (read size timeout now rounds)
  unfolding read
  read-Reads rounds short served =
      Reads-Ended rounds
        (run (λ c. ltb (length c.bytes) size) (read_round deadline) nothing_collected rounds) short
        (run-Ended (λ c. ltb (length c.bytes) size) (read_round deadline) IsReading keep
          nothing_collected [] rounds
          (record {
            collected = refl;
            room = omega arith;
            served = subst (λ n. IsServed now timeout n rounds) (omega arith) served;
          }))
