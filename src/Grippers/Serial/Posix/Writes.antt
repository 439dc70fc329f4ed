-- ===== src/Grippers/Serial/Posix/Writes.antt =====
-- A round of `SerialPort::write` of src/detail/posix/serial_port.cpp: what it leads to.
use tactile_sensors.Base.{
  Bool-cases, List, [], append-nil, arith, inl, inr, ==→eq, refl, ◌++◌, ◌∷◌, ◌≡◌, ◌⊎◌, ap, ◌∙◌, ◌≤◌,
  ◌+◌, ◌*◌, ◌-◌, ℕ, ltb, ◌==◌, take, drop, zero, suc,
}
use tactile_sensors.Grippers.Serial.{Result, ok, threw, is_eintr, is_eagain}
use tactile_sensors.Grippers.Serial.Posix.{
  Sent, Took, Next, Round, WaitResult, again, await_room, awaited_room, fails, took, not_taken,
  interrupted, ns_per_ms, time_left, write_took, write_round, ready, stop, timed_out, wait_ready,
}
use tactile_sensors.Grippers.Serial.Posix.Poll.{IsClocked}

abbrev pub taken : Took → ℕ
taken (took n) = n
taken (not_taken e) = 0

-- `write` never takes more bytes than it is handed, `n` at first; and the clock goes on.
abbrev pub IsTaken : ℕ → ℕ → ℕ → List (Round Took) → Type 0
IsTaken start timeout n [] = Unit
IsTaken start timeout n (r ∷ rs) =
    (taken r.answer ≤ n)
    × IsClocked (time_left timeout (start + timeout * ns_per_ms)) start r
    × IsTaken start timeout (n - taken r.answer) rs

pub take-append-take-drop :
    {A : Type 0} (m n : ℕ) (xs : List A) → take m xs ++ take n (drop m xs) ≡ take (m + n) xs
take-append-take-drop zero n xs = rw (let e : 0 + n ≡ n = omega arith in e) refl
take-append-take-drop (suc m) zero [] = rw (let e : suc m + 0 ≡ suc m = omega arith in e) refl
take-append-take-drop (suc m) (suc n) [] =
    rw (let e : suc m + suc n ≡ suc (m + suc n) = omega arith in e) refl
take-append-take-drop (suc m) n (x ∷ xs) =
    rw (let e : suc m + n ≡ suc (m + n) = omega arith in e)
      (ap (◌∷◌ x) (take-append-take-drop m n xs))

-- What a round leads to.
abbrev pub Follows : List ℕ → ℕ → ℕ → Sent → Round Took → Next Sent → Type 0
Follows bytes timeout deadline s r (again s') =
    (s'.sent ≡ s.sent + taken r.answer)
    × (s'.handed ≡ s.handed ++ take (taken r.answer) (drop s.sent bytes))
Follows bytes timeout deadline s r stop =
    (taken r.answer ≡ 0)
    × ((time_left timeout deadline r.asked_at ≡ 0) ⊎ (wait_ready r.polled ≡ ok timed_out))
Follows bytes timeout deadline s r (fails e) = taken r.answer ≡ 0

unmoved :
    (bytes : List ℕ) (timeout deadline : ℕ) (s : Sent) (r : Round Took)
    → taken r.answer ≡ 0
    → Follows bytes timeout deadline s r (again s)
unmoved bytes timeout deadline s r h = (omega arith, rw (h, append-nil s.handed) refl)

awaited_room-Follows :
    (bytes : List ℕ) (timeout deadline : ℕ) (s : Sent) (r : Round Took) (w : Result WaitResult)
    → taken r.answer ≡ 0
    → wait_ready r.polled ≡ w
    → Follows bytes timeout deadline s r (awaited_room s w)
unfolding awaited_room
awaited_room-Follows bytes timeout deadline s r (ok ready) h e =
    unmoved bytes timeout deadline s r h
awaited_room-Follows bytes timeout deadline s r (ok interrupted) h e =
    unmoved bytes timeout deadline s r h
awaited_room-Follows bytes timeout deadline s r (ok timed_out) h e = (h, inr e)
awaited_room-Follows bytes timeout deadline s r (threw x) h e = h

await_room-Follows :
    (bytes : List ℕ) (timeout deadline : ℕ) (s : Sent) (r : Round Took)
    → taken r.answer ≡ 0
    → Follows bytes timeout deadline s r (await_room timeout deadline s r)
unfolding await_room
await_room-Follows bytes timeout deadline s r h =
    elim (Bool-cases (time_left timeout deadline r.asked_at == 0)) [
      | inl e ↦ rw e (h, inl (==→eq _ _ e))
      | inr e ↦ rw e (awaited_room-Follows bytes timeout deadline s r (wait_ready r.polled) h refl)
    ]

write_took-Follows :
    (bytes : List ℕ) (timeout deadline : ℕ) (s : Sent) (r : Round Took) (a : Took)
    → r.answer ≡ a
    → Follows bytes timeout deadline s r (write_took bytes timeout deadline s r a)
unfolding write_took
write_took-Follows bytes timeout deadline s r (took n) e = elim (Bool-cases (ltb 0 n)) [
  | inl h ↦ rw h (rw e (refl, refl))
  | inr h ↦ rw h (await_room-Follows bytes timeout deadline s r (ap taken e ∙ ground arith))
]
write_took-Follows bytes timeout deadline s r (not_taken x) e = elim (Bool-cases (is_eintr x)) [
  | inl h ↦ rw h (unmoved bytes timeout deadline s r (ap taken e))
  | inr h ↦ rw h (elim (Bool-cases (is_eagain x)) [
    | inl k ↦ rw k (await_room-Follows bytes timeout deadline s r (ap taken e))
    | inr k ↦ rw k (ap taken e)
  ])
]

pub write_round-Follows :
    (bytes : List ℕ) (timeout deadline : ℕ) (s : Sent) (r : Round Took)
    → Follows bytes timeout deadline s r (write_round bytes timeout deadline s r)
unfolding write_round
write_round-Follows bytes timeout deadline s r =
    write_took-Follows bytes timeout deadline s r r.answer refl
