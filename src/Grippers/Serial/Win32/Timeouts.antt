-- ===== src/Grippers/Serial/Win32/Timeouts.antt =====
-- `setTimeouts` of src/detail/win32/serial_port.cpp: the cache of the timeouts agrees with the driver.
use tactile_sensors.Base.{
  Bool-cases, List, Option, [], ==→eq, &&-eq_true, arith, if◌then◌else◌, inl, inr, none, refl, some,
  sym, ◌%◌, ◌==◌, ◌^◌, ◌&&◌, ◌∷◌, ◌≡◌, ◌⊎◌, ℕ, ap₂,
}
use tactile_sensors.Grippers.Serial.{SerialIoException, ok, threw}
use tactile_sensors.Grippers.Serial.Win32.{
  Moved, SerialPort, Transfer, applied_timeouts, comm_timeouts, read, read_file, set_timeouts,
  transfer, write, write_file,
}

-- The timeouts that a transfer asks for are those in force: a read with a zero timeout returns at
-- once, any other waits for its timeout, and so does a write, for a zero timeout without end.
abbrev pub Fits : Transfer → Type 0
Fits (read_file t f) =
    (f.read_interval ≡ (if t == 0 then 4294967295 else 0)) × (f.read_total_constant ≡ t % 2 ^ 32)
Fits (write_file t f) = f.write_total_constant ≡ t % 2 ^ 32

abbrev pub AllFits : List Transfer → Type 0
AllFits [] = Unit
AllFits (t ∷ ts) = Fits t × AllFits ts

-- An open port whose cache holds what its driver has.
abbrev pub cached_port : ℕ → ℕ → ℕ → List Transfer → SerialPort
cached_port h r w ts = record {
  handle = some h;
  read_ms = some r;
  write_ms = some w;
  in_force = comm_timeouts (some r) (some w);
  transfers = ts;
}

abbrev pub IsClosed : SerialPort → Type 0
IsClosed p = (p.handle ≡ none) × (p.read_ms ≡ none) × (p.write_ms ≡ none)

abbrev pub IsCached : SerialPort → Type 0
IsCached p =
    (IsClosed p ⊎ ((h : ℕ) × (r : ℕ) × (w : ℕ) × (ts : List Transfer) × (p ≡ cached_port h r w ts)))
    × AllFits p.transfers

set_timeouts_cached :
    (a b h r w : ℕ) (ts : List Transfer) (answer : Option ℕ)
    → (set_timeouts (some a) (some b) (cached_port h r w ts) answer ≡ (ok tt, cached_port h a b ts))
      ⊎ ((e : SerialIoException) × (set_timeouts (some a) (some b) (cached_port h r w ts) answer
            ≡ (threw e, cached_port h r w ts)))
unfolding set_timeouts applied_timeouts
set_timeouts_cached a b h r w ts answer = elim (Bool-cases ((a == r) && (b == w))) [
  | inl e ↦
      let (p, q) = &&-eq_true _ _ e in
      rw e
        (inl (ap₂ (λ x y. (ok tt, cached_port h x y ts)) (sym (==→eq a r p)) (sym (==→eq b w q))))
  | inr e ↦
      rw e
        (elim answer
          as (λ o.
            (applied_timeouts (some a) (some b) (cached_port h r w ts) o
              ≡ (ok tt, cached_port h a b ts))
            ⊎ ((x : SerialIoException) × (applied_timeouts (some a) (some b) (cached_port h r w ts)
                    o
                  ≡ (threw x, cached_port h r w ts)))) [
                    | none ↦ inl refl
                    | some code ↦ inr (_, refl)
                  ])
]

Fits-read : (t w : ℕ) → Fits (read_file t (comm_timeouts (some t) (some w)))
unfolding comm_timeouts
Fits-read t w = ground arith

Fits-write : (t r : ℕ) → Fits (write_file t (comm_timeouts (some r) (some t)))
unfolding comm_timeouts
Fits-write t r = refl

pub read-IsCached :
    (size t h r w : ℕ) (ts : List Transfer) (set : Option ℕ) (answer : Moved)
    → AllFits ts
    → IsCached (read size t set answer (cached_port h r w ts)).1
unfolding read transfer
read-IsCached size t h r w ts set answer fits = elim (Bool-cases (size == 0)) [
  | inl e ↦ rw e (inr (h, r, w, ts, refl), fits)
  | inr e ↦ rw e (elim (set_timeouts_cached t w h r w ts set) [
    | inl done ↦ rw done (inr (h, t, w, _, refl), (Fits-read t w, fits))
    | inr (x, failed) ↦ rw failed (inr (h, r, w, ts, refl), fits)
  ])
]

pub write-IsCached :
    (size t h r w : ℕ) (ts : List Transfer) (set : Option ℕ) (answer : Moved)
    → AllFits ts
    → IsCached (write size t set answer (cached_port h r w ts)).1
unfolding write transfer
write-IsCached size t h r w ts set answer fits = elim (Bool-cases (size == 0)) [
  | inl e ↦ rw e (inr (h, r, w, ts, refl), fits)
  | inr e ↦ rw e (elim (set_timeouts_cached r t h r w ts set) [
    | inl done ↦ rw done (inr (h, r, t, _, refl), (Fits-write t r, fits))
    | inr (x, failed) ↦ rw failed (inr (h, r, w, ts, refl), fits)
  ])
]
