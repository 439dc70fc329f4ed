-- ===== src/Tactile/Thread/Rounds.antt =====
-- From the bytes on the wire to the user's callback, through `threadLoop` of
-- tsf/sdk_cpp/RobotiqTactileSensor.cpp.
use tactile_sensors.Base.{
  Bool-cases, List, Option, [], append_assoc, ap, inl, inr, map, none, refl, some, sym, subst, ◌++◌,
  ◌+◌, ◌∙◌, ◌∷◌, ◌≡◌, ℕ,
}
use tactile_sensors.Tactile.Framing.{Packet, packet_of, receive, usb_read_byte}
use tactile_sensors.Tactile.Port.{
  IsAsked, Port, PortRead, expected, got, read_round, read_round-bytes, waits,
}
use tactile_sensors.Tactile.Reader.{handle, handle_all}
use tactile_sensors.Tactile.Sensors.{Fingers}
use tactile_sensors.Tactile.Thread.{
  Round, Thread, after_read, follow, take_byte, take_bytes, thread_round, thread_rounds,
}

-- Packets with the times at which they are handled, from packet `k` on.
unfoldable pub stamped : (ℕ → ℕ) → ℕ → List Packet → List (ℕ × Packet)
stamped clock k [] = []
stamped clock k (p ∷ ps) = (clock k, p) ∷ stamped clock (k + 1) ps

-- Taking bytes is receiving their packets and handling these.
pub calls-take_bytes :
    (clock : ℕ → ℕ) (t : Thread) (ds : List ℕ)
    → (take_bytes clock t ds).1
      ≡ (handle_all (stamped clock t.handled (receive t.receiver ds).1) t.reader).1
unfolding take_bytes take_byte receive handle_all stamped
calls-take_bytes clock t [] = refl
calls-take_bytes clock t (d ∷ ds) = elim (Bool-cases (usb_read_byte t.receiver d).0) [
  | inl e ↦
      let r = (usb_read_byte t.receiver d).1 in
      let h = handle (clock t.handled) (packet_of r.packet) t.reader in
      rw e (
        ap (λ more. h.1 ++ more)
          (calls-take_bytes clock (record t { receiver = r; reader = h.0; handled = t.handled + 1 })
            ds))
  | inr e ↦
      rw e (calls-take_bytes clock (record t { receiver = (usb_read_byte t.receiver d).1 }) ds)
]

take_bytes-append :
    (clock : ℕ → ℕ) (t : Thread) (ds es : List ℕ)
    → (take_bytes clock t (ds ++ es)).1
      ≡ (take_bytes clock t ds).1 ++ (take_bytes clock (take_bytes clock t ds).0 es).1
unfolding take_bytes
take_bytes-append clock t [] es = refl
take_bytes-append clock t (d ∷ ds) es =
    ap (λ more. (take_byte clock t d).1 ++ more)
      (take_bytes-append clock (take_byte clock t d).0 ds es)
    ∙ sym (append_assoc (take_byte clock t d).1 _ _)

-- The port has no part in it.
take_bytes-port :
    (clock : ℕ → ℕ) (t : Thread) (p : Port) (ds : List ℕ)
    → take_bytes clock (record t { port = p }) ds
      ≡ (record (take_bytes clock t ds).0 { port = p }, (take_bytes clock t ds).1)
unfolding take_bytes take_byte
take_bytes-port clock t p [] = refl
take_bytes-port clock t p (d ∷ ds) = elim (Bool-cases (usb_read_byte t.receiver d).0) [
  | inl e ↦
      let r = (usb_read_byte t.receiver d).1 in
      let h = handle (clock t.handled) (packet_of r.packet) t.reader in
      let t' = record t { receiver = r; reader = h.0; handled = t.handled + 1 } in
      rw (e, take_bytes-port clock t' p ds) refl
  | inr e ↦
      rw (e, take_bytes-port clock (record t { receiver = (usb_read_byte t.receiver d).1 }) p ds)
        refl
]

-- A round in which no byte comes, or in which `n` more wait behind the first one.
pub data Arrival : Type 0 where
  quiet : ℕ → Arrival
  arrives : ℕ → ℕ → Option (List ℕ) → ℕ → Arrival

abbrev pub round_of : Arrival → Round
round_of (quiet now) = record { first = none; waiting = waits 0; rest = none; now = now }
round_of (arrives first n rest now) = record {
  first = some first;
  waiting = waits n;
  rest = rest;
  now = now;
}

-- The bytes that the rounds bring.
abbrev pub arrived : List Arrival → List ℕ
arrived [] = []
arrived (quiet now ∷ rounds) = arrived rounds
arrived (arrives first n rest now ∷ rounds) = expected first n rest ++ arrived rounds

-- The port hands over no more than it is asked for.
abbrev pub AreAsked : List Arrival → Type 0
AreAsked [] = Unit
AreAsked (quiet now ∷ rounds) = AreAsked rounds
AreAsked (arrives first n rest now ∷ rounds) = IsAsked n rest × AreAsked rounds

after_got :
    (clock : ℕ → ℕ) (t : Thread) (r : PortRead × Port) (bytes : List ℕ)
    → r.0 ≡ got bytes
    → after_read clock t r ≡ some (take_bytes clock (record t { port = r.1 }) bytes)
unfolding after_read
after_got clock t (a, p) bytes e =
    subst (λ x. after_read clock t (x, p) ≡ some (take_bytes clock (record t { port = p }) bytes))
      (sym e) refl

follow-some :
    (o : Option (Thread × List Fingers)) (go : Thread → Option (Thread × List Fingers))
    (t last : Thread) (calls more : List Fingers)
    → o ≡ some (t, calls)
    → go t ≡ some (last, more)
    → follow o go ≡ some (last, calls ++ more)
unfolding follow
follow-some o go t last calls more e h = rw (e, h) refl

round-arrives :
    (clock : ℕ → ℕ) (t : Thread) (first n : ℕ) (rest : Option (List ℕ)) (now : ℕ)
    → IsAsked n rest
    → thread_round clock t (round_of (arrives first n rest now))
      ≡ some (
          take_bytes clock
            (record t { port = (read_round t.port (some first) (waits n) rest now).1 })
            (expected first n rest))
unfolding thread_round
round-arrives clock t first n rest now a =
    after_got clock t (read_round t.port (some first) (waits n) rest now) (expected first n rest)
      (read_round-bytes t.port first n rest now a).0

round-quiet :
    (clock : ℕ → ℕ) (t : Thread) (now : ℕ)
    → thread_round clock t (round_of (quiet now)) ≡ some (t, [])
unfolding thread_round after_read read_round
round-quiet clock t now = refl

-- Rounds do what their bytes do, however they divide them.
pub thread_rounds-arrived :
    (clock : ℕ → ℕ) (t : Thread) (rounds : List Arrival)
    → AreAsked rounds
    → (last : Thread) × (thread_rounds clock t (map round_of rounds)
        ≡ some (last, (take_bytes clock t (arrived rounds)).1))
unfolding thread_rounds take_bytes
thread_rounds-arrived clock t [] h = (t, refl)
thread_rounds-arrived clock t (quiet now ∷ rounds) h =
    let (last, e) = thread_rounds-arrived clock t rounds h in
    (
      last,
      follow-some (thread_round clock t (round_of (quiet now)))
          (λ t'. thread_rounds clock t' (map round_of rounds)) t last []
          (take_bytes clock t (arrived rounds)).1 (round-quiet clock t now) e,
    )
thread_rounds-arrived clock t (arrives first n rest now ∷ rounds) (a, h) =
    let p = (read_round t.port (some first) (waits n) rest now).1 in
    let bytes = expected first n rest in
    let u = (take_bytes clock t bytes).0 in
    let (last, e) = thread_rounds-arrived clock (record u { port = p }) rounds h in
    (
      last,
      follow-some (thread_round clock t (round_of (arrives first n rest now)))
            (λ t'. thread_rounds clock t' (map round_of rounds)) (record u { port = p }) last
            (take_bytes clock t bytes).1
            (take_bytes clock (record u { port = p }) (arrived rounds)).1
            (round-arrives clock t first n rest now a ∙ ap some (take_bytes-port clock t p bytes)) e
          ∙ ap (λ calls. some (last, calls))
              (ap (λ (r : Thread × List Fingers). (take_bytes clock t bytes).1 ++ r.1)
                  (take_bytes-port clock u p (arrived rounds))
                ∙ sym (take_bytes-append clock t bytes (arrived rounds))),
    )
