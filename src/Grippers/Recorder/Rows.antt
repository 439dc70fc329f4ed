-- ===== src/Grippers/Recorder/Rows.antt =====
-- What one exchange adds to the file and the counters of the Recorder of examples/exchange_log.cpp.
use tactile_sensors.Base.{
  Bool, Bool-cases, List, [], ap, arith, false, if◌then◌else◌, inl, inr, length, not, refl, true,
  ◌++◌, ◌+◌, ◌<◌, ◌^◌, ◌∷◌, ◌!=◌, ◌≡◌, ◌≤◌, ℕ,
}
use tactile_sensors.Grippers.Image.{StampedExchange, count_of}
use tactile_sensors.Grippers.Log.{error, warn}
use tactile_sensors.Grippers.Recorder.{
  Recorder, next_count, note_skipped, record_exchange, write_exchange,
}

-- The counts of the file go up, from above `low` to `high`.
unfoldable pub Rises : ℕ → List StampedExchange → ℕ → Type 0
Rises low [] high = low ≡ high
Rises low (e ∷ es) high = (low < count_of e) × Rises (count_of e) es high

-- How often the count goes up by more than one.
unfoldable pub gaps : ℕ → List StampedExchange → ℕ
gaps low [] = 0
gaps low (e ∷ es) = (if count_of e != low + 1 then 1 else 0) + gaps (count_of e) es

Rises-append :
    (low high : ℕ) (es : List StampedExchange) (e : StampedExchange)
    → Rises low es high
    → high < count_of e
    → Rises low (es ++ e ∷ []) (count_of e)
unfolding Rises
Rises-append low high [] e h k = (omega arith, refl)
Rises-append low high (x ∷ es) e h k = (h.0, Rises-append (count_of x) high es e h.1 k)

gaps-append :
    (low high : ℕ) (es : List StampedExchange) (e : StampedExchange)
    → Rises low es high
    → gaps low (es ++ e ∷ []) ≡ gaps low es + (if count_of e != high + 1 then 1 else 0)
unfolding Rises gaps
gaps-append low high [] e h = rw h (omega arith)
gaps-append low high (x ∷ es) e h = omega (arith, gaps-append (count_of x) high es e h.1)

length-append_one : {A : Type 0} → (xs : List A) (x : A) → length (xs ++ x ∷ []) ≡ length xs + 1
length-append_one [] x = refl
length-append_one (y ∷ xs) x = omega (arith, length-append_one xs x)

abbrev pub bit : Bool → ℕ
bit b = if b then 1 else 0

-- What the recorder has counted of its file, from the count that it started at.
pub record IsCounting (first : ℕ) (r : Recorder) : Type 0 where
  pub rises : Rises first r.file r.written
  pub rows : length r.file ≡ r.rows + bit r.write_failed
  pub total : first + length r.file + r.skipped ≡ r.written
  pub warned : length r.log ≡ gaps first r.file + bit r.write_failed

-- A count that is noted as the one after the last, or with those between them as skipped.
pub record Noted (r : Recorder) (e : StampedExchange) (r' : Recorder) : Type 0 where
  pub file : r'.file ≡ r.file
  pub rows : r'.rows ≡ r.rows
  pub write_failed : r'.write_failed ≡ r.write_failed
  pub skipped : r.written + r'.skipped + 1 ≡ count_of e + r.skipped
  pub warned : length r'.log ≡ length r.log + bit (count_of e != r.written + 1)

pub note_skipped-Noted :
    (r : Recorder) (e : StampedExchange)
    → r.written < count_of e
    → r.skipped ≤ r.written
    → count_of e < 2 ^ 64
    → Noted r e (note_skipped r e)
unfolding note_skipped
note_skipped-Noted r e h below k =
    let next : next_count r ≡ r.written + 1 = omega arith in
    elim (Bool-cases (count_of e != r.written + 1)) [
      | inl gap ↦
          rw (next, gap)
            (record {
              file = refl;
              rows = refl;
              write_failed = refl;
              skipped = omega arith;
              warned = rw gap (length-append_one r.log warn);
            })
      | inr follows ↦
          rw (next, follows)
            (record {
              file = refl;
              rows = refl;
              write_failed = refl;
              skipped = ground arith;
              warned = rw follows (omega arith);
            })
    ]

pub write_exchange-IsCounting :
    (first : ℕ) (good : Bool) (r r' : Recorder) (e : StampedExchange)
    → IsCounting first r
    → r.write_failed ≡ false
    → Noted r e r'
    → r.written < count_of e
    → count_of e < 2 ^ 64
    → IsCounting first (write_exchange good r' e)
unfolding write_exchange
write_exchange-IsCounting first true r r' e c fine n h k =
    let unfailed : bit r.write_failed ≡ 0 = ap bit fine in
    let longer = length-append_one r.file e in
    record {
      rises = rw n.file (Rises-append first r.written r.file e c.rises h);
      rows =
          rw (n.file, n.write_failed, fine)
            (omega (arith, longer, c.rows, c.total, n.rows, unfailed));
      total = rw n.file (omega (arith, longer, c.total, n.skipped));
      warned =
          rw (n.file, n.write_failed, fine)
            (omega
              (arith, n.warned, c.warned, unfailed, gaps-append first r.written r.file e c.rises));
    }
write_exchange-IsCounting first false r r' e c fine n h k =
    let unfailed : bit r.write_failed ≡ 0 = ap bit fine in
    let longer = length-append_one r.file e in
    record {
      rises = rw n.file (Rises-append first r.written r.file e c.rises h);
      rows = rw n.file (omega (arith, longer, c.rows, n.rows, unfailed));
      total = rw n.file (omega (arith, longer, c.total, n.skipped));
      warned = rw n.file (
          omega (
            arith,
            length-append_one r'.log error,
            n.warned,
            c.warned,
            unfailed,
            gaps-append first r.written r.file e c.rises,
          ));
    }

pub write_exchange-failed :
    (good : Bool) (r : Recorder) (e : StampedExchange)
    → r.write_failed ≡ false
    → (write_exchange good r e).write_failed ≡ not good
unfolding write_exchange
write_exchange-failed true r e h = h
write_exchange-failed false r e h = refl

pub write_exchange-written :
    (good : Bool) (r : Recorder) (e : StampedExchange)
    → (write_exchange good r e).written ≡ count_of e
unfolding write_exchange
write_exchange-written true r e = refl
write_exchange-written false r e = refl

pub record_exchange-IsCounting :
    (first : ℕ) (good : Bool) (r : Recorder) (e : StampedExchange)
    → IsCounting first r
    → r.write_failed ≡ false
    → r.written < count_of e
    → count_of e < 2 ^ 64
    → IsCounting first (record_exchange good r e)
      × ((record_exchange good r e).write_failed ≡ not good)
      × ((record_exchange good r e).written ≡ count_of e)
unfolding record_exchange
record_exchange-IsCounting first good r e c fine h k =
    let n = note_skipped-Noted r e h (omega (arith, c.total)) k in
    (
      write_exchange-IsCounting first good r (note_skipped r e) e c fine n h k,
      write_exchange-failed good (note_skipped r e) e (rw n.write_failed fine),
      write_exchange-written good (note_skipped r e) e,
    )
