-- ===== src/Grippers/Serial/Default/Holding.antt =====
-- Which descriptors a DefaultSerial of src/detail/default_serial.cpp holds.
use tactile_sensors.Base.{
  Bool, List, Option, [], eq→==, false, if◌then◌else◌, none, not, refl, some, true, ◌∷◌, ℕ, ◌≡◌,
  sym, subst,
}
use tactile_sensors.Grippers.Log.{Level}
use tactile_sensors.Grippers.Serial.{Result, ok, threw, empty_port}
use tactile_sensors.Grippers.Serial.Default.{
  Attempt, Attribute, Connection, Process, SerialConfig, close_serial, open_serial, publish,
}
use tactile_sensors.Grippers.Serial.Posix.Descriptors.{
  Opened, SerialPort, Termios, close_fd, close_port, configure, configured, new_port, not_opened,
  open_port, opened, os_close,
}

-- The process has one descriptor more than `others` while the connection is open, and none more
-- while it is closed.
abbrev pub Holds : List ℕ → Process → Type 0
Holds others s = elim s.connection.port [
  | none ↦ s.fds ≡ others
  | some port ↦ (fd : ℕ) × (port.fd ≡ some fd) × (s.fds ≡ fd ∷ others)
]

-- A call that another part of the program makes on the connection.
pub data Call : Type 0 where
  opening : Attempt → Call
  closing : Call

unfoldable pub call : (ℕ → Bool) → (Termios → Termios) → SerialConfig → Call → Process → Process
call has cfmakeraw config (opening attempt) s = (open_serial has cfmakeraw config attempt s).1
call has cfmakeraw config closing s = close_serial s

unfoldable pub calls :
    (ℕ → Bool) → (Termios → Termios) → SerialConfig → List Call → Process → Process
calls has cfmakeraw config [] s = s
calls has cfmakeraw config (c ∷ cs) s =
    calls has cfmakeraw config cs (call has cfmakeraw config c s)

os_close_head : (fd : ℕ) (fds : List ℕ) → os_close fd (fd ∷ fds) ≡ fds
unfolding os_close
os_close_head fd fds = rw (eq→== fd fd refl) refl

module _ (has : ℕ → Bool) (cfmakeraw : Termios → Termios) (config : SerialConfig)
    (others : List ℕ) where
  publish-Holds :
      (attribute : Option Attribute) (c : Connection) (fd : ℕ) (r : Result Termios)
      → c.port ≡ none
      → Holds others
          (publish config attribute c (configured new_port others fd config.baudrate r)).1
  unfolding publish configured close_port close_fd
  publish-Holds attribute c fd (ok tty) e = (fd, refl, refl)
  publish-Holds attribute c fd (threw x) e = rw e (os_close_head fd others)

  publish_answer-Holds :
      (attribute : Option Attribute) (c : Connection) (answer : Opened)
      → c.port ≡ none
      → Holds others
          (publish config attribute c
            (open_port has cfmakeraw config.baudrate answer new_port others)).1
  unfolding publish open_port close_port close_fd
  publish_answer-Holds attribute c (opened fd line) e =
      publish-Holds attribute c fd (configure has cfmakeraw line config.baudrate) e
  publish_answer-Holds attribute c (not_opened x) e = rw e refl

  state : Option SerialPort → List Level → List ℕ → Process
  state port log fds = record { connection = record { port = port; log = log }; fds = fds }

  if-Holds :
      (b : Bool) (x y : Result (Unit {0}) × Process)
      → Holds others x.1
      → Holds others y.1
      → Holds others (if b then x else y).1
  if-Holds true x y h k = h
  if-Holds false x y h k = k

  open_serial-Holds :
      (attempt : Attempt) (port : Option SerialPort) (log : List Level) (fds : List ℕ)
      → Holds others (state port log fds)
      → Holds others (open_serial has cfmakeraw config attempt (state port log fds)).1
  unfolding open_serial state
  open_serial-Holds attempt none log fds h =
      subst (λ f. Holds others (open_serial has cfmakeraw config attempt (state none log f)).1)
        (sym h)
        (if-Holds (not config.has_name) (threw empty_port, state none log others)
          (publish config attempt.attribute (record { port = none; log = log })
            (open_port has cfmakeraw config.baudrate attempt.answer new_port others))
          refl
          (publish_answer-Holds attempt.attribute (record { port = none; log = log }) attempt.answer
            refl))
  open_serial-Holds attempt (some port) log fds h = h

  close_serial-Holds :
      (port : Option SerialPort) (log : List Level) (fds : List ℕ)
      → Holds others (state port log fds)
      → Holds others (close_serial (state port log fds))
  unfolding close_serial state close_port close_fd
  close_serial-Holds none log fds h = h
  close_serial-Holds (some port) log fds (fd, e, h) = rw (e, h) (os_close_head fd others)

  call-Holds :
      (c : Call) (s : Process) → Holds others s → Holds others (call has cfmakeraw config c s)
  unfolding call state
  call-Holds (opening attempt) s h =
      open_serial-Holds attempt s.connection.port s.connection.log s.fds h
  call-Holds closing s h = close_serial-Holds s.connection.port s.connection.log s.fds h

  -- No descriptor leaks: whatever calls of `open` and `close` are made and whatever the operating
  -- system answers to them, also when opening or configuring the port fails, a connection that is
  -- closed at first holds one descriptor while it is open and none while it is closed; those of the
  -- rest of the process stay open.
  pub calls-Holds :
      (cs : List Call) (s : Process)
      → Holds others s
      → Holds others (calls has cfmakeraw config cs s)
  unfolding calls
  calls-Holds [] s h = h
  calls-Holds (c ∷ cs) s h = calls-Holds cs (call has cfmakeraw config c s) (call-Holds c s h)
