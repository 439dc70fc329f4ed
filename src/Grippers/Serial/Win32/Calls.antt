-- ===== src/Grippers/Serial/Win32/Calls.antt =====
-- The calls that a DefaultSerial makes on the SerialPort of src/detail/win32/serial_port.cpp: it opens a
-- port that is closed, and reads and writes one that is open.
use tactile_sensors.Base.{
  List, Option, [], inl, inr, arith, none, refl, some, subst, sym, ◌∷◌, ◌≡◌, ℕ, ap,
}
use tactile_sensors.Grippers.Serial.{Result, ok, threw}
use tactile_sensors.Grippers.Serial.Win32.{
  CommTimeouts, Created, Dcb, Moved, SerialPort, Transfer, close_handle, configure, created,
  not_created, open_handle, or_close, read, set_timeouts, set_up, applied_timeouts, write,
}
use tactile_sensors.Grippers.Serial.Win32.Timeouts.{
  AllFits, IsCached, IsClosed, cached_port, read-IsCached, write-IsCached,
}

pub data Call : Type 0 where
  opening : ℕ → Created → Call
  closing : Call
  reading writing : ℕ → ℕ → Option ℕ → Moved → Call

unfoldable pub call : Call → SerialPort → SerialPort
call (opening baudrate answer) p = elim p.handle [
  | none ↦ (open_handle baudrate answer p).1
  | some h ↦ p
]
call closing p = close_handle p
call (reading size timeout set answer) p = elim p.handle [
  | none ↦ p
  | some h ↦ (read size timeout set answer p).1
]
call (writing size timeout set answer) p = elim p.handle [
  | none ↦ p
  | some h ↦ (write size timeout set answer p).1
]

unfoldable pub calls : List Call → SerialPort → SerialPort
unfolding call
calls [] p = p
calls (c ∷ cs) p = calls cs (call c p)

-- A closed port.
closed_port : CommTimeouts → List Transfer → SerialPort
closed_port f ts = record {
  handle = none;
  read_ms = none;
  write_ms = none;
  in_force = f;
  transfers = ts;
}

closed : (p : SerialPort) → IsClosed p → p ≡ closed_port p.in_force p.transfers
unfolding closed_port
closed p h = ground (arith, h.0, h.1, h.2)

set_up-IsCached :
    (h : ℕ) (f : CommTimeouts) (ts : List Transfer) (r : Result Dcb) (answer : Option ℕ)
    → AllFits ts
    → IsCached (or_close (set_up r (record (closed_port f ts) { handle = some h }) answer)).1
unfolding or_close set_up set_timeouts applied_timeouts close_handle closed_port
set_up-IsCached h f ts (ok dcb) none fits = (inr (h, 0, 0, ts, refl), fits)
set_up-IsCached h f ts (ok dcb) (some code) fits = (inl (refl, refl, refl), fits)
set_up-IsCached h f ts (threw e) answer fits = (inl (refl, refl, refl), fits)

open_handle-IsCached :
    (baudrate : ℕ) (answer : Created) (f : CommTimeouts) (ts : List Transfer)
    → AllFits ts
    → IsCached (open_handle baudrate answer (closed_port f ts)).1
unfolding open_handle closed_port
open_handle-IsCached baudrate (created h f' dcb found applied answer) f ts fits =
    set_up-IsCached h f' ts (configure dcb found applied baudrate) answer fits
open_handle-IsCached baudrate (not_created code) f ts fits = (inl (refl, refl, refl), fits)

closed-IsCached :
    (c : Call) (f : CommTimeouts) (ts : List Transfer)
    → AllFits ts
    → IsCached (call c (closed_port f ts))
unfolding call closed_port close_handle
closed-IsCached (opening baudrate answer) f ts fits = open_handle-IsCached baudrate answer f ts fits
closed-IsCached closing f ts fits = (inl (refl, refl, refl), fits)
closed-IsCached (reading size timeout set answer) f ts fits = (inl (refl, refl, refl), fits)
closed-IsCached (writing size timeout set answer) f ts fits = (inl (refl, refl, refl), fits)

IsCached-IsCached :
    (c : Call) (h r w : ℕ) (ts : List Transfer)
    → AllFits ts
    → IsCached (call c (cached_port h r w ts))
unfolding call close_handle
IsCached-IsCached (opening baudrate answer) h r w ts fits = (inr (h, r, w, ts, refl), fits)
IsCached-IsCached closing h r w ts fits = (inl (refl, refl, refl), fits)
IsCached-IsCached (reading size timeout set answer) h r w ts fits =
    read-IsCached size timeout h r w ts set answer fits
IsCached-IsCached (writing size timeout set answer) h r w ts fits =
    write-IsCached size timeout h r w ts set answer fits

call-IsCached : (c : Call) (p : SerialPort) → IsCached p → IsCached (call c p)
call-IsCached c p (inl h, fits) =
    subst (λ q. IsCached (call c q)) (sym (closed p h))
      (closed-IsCached c p.in_force p.transfers fits)
call-IsCached c p (inr (h, r, w, ts, e), fits) =
    subst (λ q. IsCached (call c q)) (sym e)
      (IsCached-IsCached c h r w ts (subst AllFits (ap (λ (q : SerialPort). q.transfers) e) fits))

-- Over any sequence of opens, closes, reads and writes, whatever the driver answers and whatever
-- timeouts a newly opened port has, the cache of the timeouts agrees with the driver of the open
-- port, and every read and write runs under the timeouts that it asked for, modulo 2^32 milliseconds,
-- although most calls do not set them.
pub calls-IsCached : (cs : List Call) (p : SerialPort) → IsCached p → IsCached (calls cs p)
unfolding calls
calls-IsCached [] p h = h
calls-IsCached (c ∷ cs) p h = calls-IsCached cs (call c p) (call-IsCached c p h)
