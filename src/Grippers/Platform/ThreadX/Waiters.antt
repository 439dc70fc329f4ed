-- ===== src/Grippers/Platform/ThreadX/Waiters.antt =====
-- `_waiters` of the condition variable of ports/threadx/threadx_platform.hpp, for any number of threads.
use tactile_sensors.Base.{
  Bool-cases, inl, inr, refl, ◌+◌, ◌<◌, ◌==◌, ◌≡◌, ◌≤◌, ℕ, suc, zero, arith, subst, ap,
}
use tactile_sensors.Grippers.Platform.ThreadX.{
  Phase, Reach, Step, System, checking, deregister, done, expire, finish, fresh, getting, here,
  load, lock, leave, give_up, close, load_closed, put_closed, done_closed, next, outside, publish,
  put, register, registered, relock, returning, take, unlock, update, woken,
}

-- Whether a thread in this phase is between the two changes of the counter.
abbrev pub is_waiter : Phase → ℕ
is_waiter registered = 1
is_waiter getting = 1
is_waiter woken = 1
is_waiter outside = 0
is_waiter checking = 0
is_waiter returning = 0

-- How many of the first `n` threads are.
pub total : ℕ → (ℕ → Phase) → ℕ
total zero phase = 0
total (suc n) phase = total n phase + is_waiter (phase n)

total-update_above :
    (n i : ℕ) (phase : ℕ → Phase) (p : Phase) → n ≤ i → total n (update phase i p) ≡ total n phase
unfolding total
total-update_above zero i phase p h = refl
total-update_above (suc n) i phase p h = elim (Bool-cases (n == i)) [
  | inl e ↦ absurd (ground arith)
  | inr e ↦ rw e (ap (λ t. t + is_waiter (phase n)) (total-update_above n i phase p (omega arith)))
]

total-update :
    (n i : ℕ) (phase : ℕ → Phase) (p : Phase)
    → i < n
    → total n (update phase i p) + is_waiter (phase i) ≡ total n phase + is_waiter p
unfolding total
total-update zero i phase p h = elim h [ ]
total-update (suc n) i phase p h = elim (Bool-cases (n == i)) [
  | inl e ↦
      let same : n ≡ i = ground arith in
      rw e (
        omega
          (arith, total-update_above n i phase p (omega arith), ap (λ k. is_waiter (phase k)) same))
  | inr e ↦ let below : i < n = ground arith in rw e (omega (arith, total-update n i phase p below))
]

module _ (n : ℕ) where
  abbrev pub IsCounted : System → Type 0
  IsCounted s = s.waiters ≡ total n s.phase

  -- A step of thread `i` from phase `p` to phase `q`.
  moved :
      (phase : ℕ → Phase) (i : ℕ) (p q : Phase)
      → i < n
      → phase i ≡ p
      → total n (update phase i q) + is_waiter p ≡ total n phase + is_waiter q
  moved phase i p q lt e =
      subst (λ x. total n (update phase i q) + is_waiter x ≡ total n phase + is_waiter q) e
        (total-update n i phase q lt)

  Step-IsCounted : {s t : System} → Step n s t → IsCounted s → IsCounted t
  Step-IsCounted {s} (lock i count lt e free) h =
      omega (arith, h, moved s.phase i outside checking lt e)
  Step-IsCounted {s} (finish i lt e came) h =
      omega (arith, h, moved s.phase i checking outside lt e)
  Step-IsCounted {s} (leave i lt e closed) h =
      omega (arith, h, moved s.phase i checking outside lt e)
  Step-IsCounted {s} (give_up i lt e) h = omega (arith, h, moved s.phase i checking outside lt e)
  Step-IsCounted {s} (register i lt e not_yet still) h =
      omega (arith, h, moved s.phase i checking registered lt e)
  Step-IsCounted {s} (unlock i lt e) h = omega (arith, h, moved s.phase i registered getting lt e)
  Step-IsCounted {s} (take i lt e some_left) h =
      omega (arith, h, moved s.phase i getting woken lt e)
  Step-IsCounted {s} (expire i lt e) h = omega (arith, h, moved s.phase i getting woken lt e)
  Step-IsCounted {s} (deregister i lt e) h = omega (arith, h, moved s.phase i woken returning lt e)
  Step-IsCounted {s} (relock i lt e free) h =
      omega (arith, h, moved s.phase i returning checking lt e)
  Step-IsCounted (publish e free) h = h
  Step-IsCounted (load e) h = h
  Step-IsCounted (put k e) h = h
  Step-IsCounted (done e) h = h
  Step-IsCounted (close e free) h = h
  Step-IsCounted (load_closed e) h = h
  Step-IsCounted (put_closed k e) h = h
  Step-IsCounted (done_closed e) h = h

  nobody : (k : ℕ) → 0 ≡ total k (λ i. outside)
  unfolding total
  nobody zero = refl
  nobody (suc k) = omega (arith, nobody k)

  -- However many threads wait, the counter is the number of those that are between registering and
  -- leaving, after any steps; so `notifyAll` puts one token for each of them.
  pub Reach-IsCounted : (count : ℕ) {s : System} → Reach n (fresh count) s → IsCounted s
  Reach-IsCounted count here = nobody n
  Reach-IsCounted count (next r st) = Step-IsCounted st (Reach-IsCounted count r)
