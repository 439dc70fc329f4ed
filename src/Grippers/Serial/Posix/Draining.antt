-- ===== src/Grippers/Serial/Posix/Draining.antt =====
-- `SerialPort::drain` of src/detail/posix/serial_port.cpp, on a system that tells how many bytes wait to
-- be sent. What TIOCOUTQ and tcdrain answer, round by round, is a list; a loop that has used up its
-- list still runs.
use tactile_sensors.Base.{
  Bool, Bool-cases, List, Option, [], arith, false, if◌then◌else◌, inl, inr, leb, none, not, ap,
  subst, sym, refl, some, suc, true, zero, ◌&&◌, ◌*◌, ◌++◌, ◌+◌, ◌/◌, ◌==◌, ◌≡◌, ◌≤◌, ◌<◌, ◌≢◌, ◌∷◌,
  ℕ, ◌⊎◌,
}
use tactile_sensors.Grippers.Serial.{Errno, SerialIoException, is_eintr, os_error}
use tactile_sensors.Grippers.Serial.Posix.{ns_per_ms}

-- The bytes that TIOCOUTQ reports, if it is supported, and the time when they are looked at.
pub record Queue : Type 0 where
  pub queued : Option ℕ
  pub seen_at : ℕ

pub data DrainEnd : Type 0 where
  drained late draining : DrainEnd
  raised : SerialIoException → DrainEnd

-- The answers of tcdrain: none, or an error.
pub finish_drain : List (Option Errno) → DrainEnd
finish_drain [] = draining
finish_drain (none ∷ answers) = drained
finish_drain (some e ∷ answers) = if is_eintr e then finish_drain answers else raised (os_error e)

-- The microseconds that so many bytes take on the wire, 10 bits to a byte.
pub sleep_time : ℕ → ℕ → ℕ
sleep_time baudrate queued = 1000000 * 10 / baudrate * queued

-- A round of the loop: what is queued, whether the time is over, and what the later rounds come to.
-- The sleeps, and how the call ends.
drain_round : ℕ → List (Option Errno) → Bool → List ℕ × DrainEnd → Option ℕ → List ℕ × DrainEnd
unfolding finish_drain sleep_time
drain_round baudrate answers over rest none = ([], finish_drain answers)
drain_round baudrate answers over rest (some zero) = ([], finish_drain answers)
drain_round baudrate answers over rest (some (suc n)) =
    if over then ([], late) else (sleep_time baudrate (suc n) ∷ rest.0, rest.1)

pub drain_from : ℕ → ℕ → ℕ → List Queue → List (Option Errno) → List ℕ × DrainEnd
unfolding drain_round
drain_from baudrate timeout deadline [] answers = ([], draining)
drain_from baudrate timeout deadline (q ∷ queues) answers =
    drain_round baudrate answers (not (timeout == 0) && leb deadline q.seen_at)
      (drain_from baudrate timeout deadline queues answers) q.queued

unfoldable pub drain : ℕ → ℕ → ℕ → List Queue → List (Option Errno) → List ℕ × DrainEnd
unfolding drain_from
drain baudrate timeout now queues answers =
    drain_from baudrate timeout (now + timeout * ns_per_ms) queues answers

abbrev pub IsIdle : Option ℕ → Type 0
IsIdle none = Unit
IsIdle (some n) = n ≡ 0

-- A round in which the loop goes on: bytes wait, and the time is not over.
abbrev pub IsBusy : ℕ → ℕ → Queue → Type 0
IsBusy timeout deadline q =
    ((n : ℕ) × (q.queued ≡ some (suc n))) × ((timeout ≡ 0) ⊎ (q.seen_at < deadline))

abbrev pub AllBusy : ℕ → ℕ → List Queue → Type 0
AllBusy timeout deadline [] = Unit
AllBusy timeout deadline (q ∷ qs) = IsBusy timeout deadline q × AllBusy timeout deadline qs

-- A round in which bytes wait and the time is over.
abbrev pub IsOver : ℕ → ℕ → Queue → Type 0
IsOver timeout deadline q =
    ((n : ℕ) × (q.queued ≡ some (suc n))) × (timeout ≢ 0) × (deadline ≤ q.seen_at)

-- How a drain ends: in the first round that is not busy, if there is one.
abbrev pub Drains : ℕ → ℕ → List Queue → List (Option Errno) → DrainEnd → Type 0
Drains timeout deadline queues answers result =
    (AllBusy timeout deadline queues × (result ≡ draining))
    ⊎ ((before : List Queue) × (q : Queue) × (after : List Queue) × (queues ≡ before ++ q ∷ after)
        × AllBusy timeout deadline before
        × ((IsIdle q.queued × (result ≡ finish_drain answers) × (result ≢ late))
            ⊎ (IsOver timeout deadline q × (result ≡ late))))

not_late : (answers : List (Option Errno)) → finish_drain answers ≢ late
unfolding finish_drain
not_late [] e = cc
not_late (none ∷ answers) e = cc
not_late (some x ∷ answers) e = elim (Bool-cases (is_eintr x)) [
  | inl h ↦ not_late answers (rw h at e)
  | inr h ↦ absurd (let e' : raised (os_error x) ≡ late = rw h at e in cc)
]

idle :
    (timeout deadline : ℕ) (q : Queue) (queues : List Queue) (answers : List (Option Errno))
    → IsIdle q.queued
    → Drains timeout deadline (q ∷ queues) answers (finish_drain answers)
idle timeout deadline q queues answers h =
    inr ([], q, queues, refl, tt, inl (h, refl, not_late answers))

busy :
    (timeout deadline : ℕ) (q : Queue) (queues : List Queue) (answers : List (Option Errno))
    → IsBusy timeout deadline q
    → (result : DrainEnd) → Drains timeout deadline queues answers result
    → Drains timeout deadline (q ∷ queues) answers result
busy timeout deadline q queues answers h result (inl (all, e)) = inl ((h, all), e)
busy timeout deadline q queues answers h result (inr (before, r, after, split, all, ends)) =
    inr (q ∷ before, r, after, ap (◌∷◌ q) split, (h, all), ends)

over :
    (timeout deadline now : ℕ)
    → (not (timeout == 0) && leb deadline now) ≡ true
    → (timeout ≢ 0) × (deadline ≤ now)
over timeout deadline now h = (λ e. ground arith, ground arith)

not_over :
    (timeout deadline now : ℕ)
    → (not (timeout == 0) && leb deadline now) ≡ false
    → (timeout ≡ 0) ⊎ (now < deadline)
not_over zero deadline now h = inl refl
not_over (suc t) deadline now h = inr (ground arith)

module _ (baudrate timeout deadline : ℕ) (answers : List (Option Errno)) where
  drain_round-Drains :
      (q : Queue) (queues : List Queue) (rest : List ℕ × DrainEnd) (queued : Option ℕ)
      → q.queued ≡ queued
      → Drains timeout deadline queues answers rest.1
      → Drains timeout deadline
          (q ∷ queues)
          answers
          (drain_round baudrate answers
            (not (timeout == 0) && leb deadline q.seen_at)
            rest
            queued).1
  unfolding drain_round
  drain_round-Drains q queues rest none e ih =
      idle timeout deadline q queues answers (subst IsIdle (sym e) tt)
  drain_round-Drains q queues rest (some zero) e ih =
      idle timeout deadline q queues answers (subst IsIdle (sym e) refl)
  drain_round-Drains q queues rest (some (suc n)) e ih =
      elim (Bool-cases (not (timeout == 0) && leb deadline q.seen_at)) [
        | inl h ↦ rw h (
            inr (
              [],
              q,
              queues,
              refl,
              tt,
              inr (
                (
                  (n, e),
                  (over timeout deadline q.seen_at h).0,
                  (over timeout deadline q.seen_at h).1,
                ),
                refl,
              ),
            ))
        | inr h ↦ rw h (
            busy timeout deadline q queues answers ((n, e), not_over timeout deadline q.seen_at h)
              rest.1 ih)
      ]

  drain_from-Drains :
      (queues : List Queue)
      → Drains timeout deadline queues answers
          (drain_from baudrate timeout deadline queues answers).1
  unfolding drain_from
  drain_from-Drains [] = inl (tt, refl)
  drain_from-Drains (q ∷ queues) =
      drain_round-Drains q queues (drain_from baudrate timeout deadline queues answers) q.queued
        refl (drain_from-Drains queues)

-- A drain looks at the queue until it finds it empty, or finds bytes in it after the deadline of a
-- timeout that is not zero. It answers false exactly in the second case; in the first it ends as
-- tcdrain does, which is called again while it is interrupted. As long as neither is seen it runs.
pub drain-Drains :
    (baudrate timeout now : ℕ) (queues : List Queue) (answers : List (Option Errno))
    → Drains timeout
        (now + timeout * ns_per_ms)
        queues
        answers
        (drain baudrate timeout now queues answers).1
unfolding drain
drain-Drains baudrate timeout now queues answers =
    drain_from-Drains baudrate timeout (now + timeout * ns_per_ms) answers queues
