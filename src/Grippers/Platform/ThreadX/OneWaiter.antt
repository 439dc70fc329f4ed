-- ===== src/Grippers/Platform/ThreadX/OneWaiter.antt =====
-- The condition variable of ports/threadx/threadx_platform.hpp with one thread that waits.
use tactile_sensors.Base.{
  none, some, ◌+◌, ◌<◌, ◌≡◌, ◌≤◌, ℕ, suc, zero, arith, ap, sym, subst, ◌∙◌, ◌⊎◌, inl, inr, refl,
  false, true,
}
use tactile_sensors.Grippers.Platform.ThreadX.{
  Phase, Reach, Step, System, checking, deregister, done, expire, finish, fresh, getting, here,
  idle, load, lock, next, outside, publish, published, leave, give_up, close, load_closed,
  put_closed, done_closed, Publisher, put, putting, register, registered, relock, returning, take,
  unlock, woken,
}

-- A thread in `notifyAll` has at least one token still to put, if anybody is registered.
abbrev pub Notifies : Publisher → Type 0
Notifies p = (p ≡ published) ⊎ ((k : ℕ) × (p ≡ putting (suc k)))

-- The notification of a thread in tx_semaphore_get is on its way or there.
abbrev pub IsNotified : System → Type 0
IsNotified s = Notifies s.publisher ⊎ Notifies s.closer ⊎ (0 < s.tokens)

-- Nothing has happened yet that thread 0 waits for.
abbrev IsQuiet : System → Type 0
IsQuiet s = (s.count ≤ s.goal 0) × (s.closed ≡ false)

-- What holds of the thread in each phase.
abbrev Holds : System → Phase → Type 0
Holds s outside = s.waiters ≡ 0
Holds s checking = (s.waiters ≡ 0) × (s.owner ≡ some 0)
Holds s registered = (s.waiters ≡ 1) × (s.owner ≡ some 0) × IsQuiet s
Holds s getting = (s.waiters ≡ 1) × (IsQuiet s ⊎ IsNotified s)
Holds s woken = s.waiters ≡ 1
Holds s returning = s.waiters ≡ 0

abbrev IsKept : System → Type 0
IsKept s = Holds s (s.phase 0)

-- The thread stands where the step wants it.
at : (s : System) {p : Phase} → IsKept s → s.phase 0 ≡ p → Holds s p
at s h e = subst (Holds s) e h

-- A step of another thread, which leaves the mutex and the number of waiters as they are.
carry :
    (s t : System) (p : Phase)
    → t.waiters ≡ s.waiters
    → t.owner ≡ s.owner
    → (s.owner ≡ some 0 → IsQuiet s → IsQuiet t)
    → (s.waiters ≡ 1 → IsQuiet s ⊎ IsNotified s → IsQuiet t ⊎ IsNotified t)
    → Holds s p
    → Holds t p
carry s t outside w o quiet news h = w ∙ h
carry s t checking w o quiet news h = (w ∙ h.0, o ∙ h.1)
carry s t registered w o quiet news h = (w ∙ h.0, o ∙ h.1, quiet h.1 h.2)
carry s t getting w o quiet news h = (w ∙ h.0, news h.0 h.1)
carry s t woken w o quiet news h = w ∙ h
carry s t returning w o quiet news h = w ∙ h

-- The mutex is not the thread's if it is free.
not_free {ℓ} : {A : Type ℓ} (s : System) → s.owner ≡ none → s.owner ≡ some 0 → A
not_free s free mine = absurd (let q : none ≡ some 0 = sym free ∙ mine in cc)

-- A thread that has put its last token notifies nobody more.
none_left {ℓ} : {A : Type ℓ} (p : Publisher) → p ≡ putting 0 → Notifies p → A
none_left p e (inl q) = absurd (let r : published ≡ putting 0 = sym q ∙ e in cc)
none_left p e (inr (k, q)) = absurd (let r : putting (suc k) ≡ putting 0 = sym q ∙ e in cc)

still_published :
    (s : System)
    → s.publisher ≡ putting 0
    → IsNotified s
    → IsNotified (record s { publisher = idle })
still_published s e (inl p) = none_left s.publisher e p
still_published s e (inr n) = inr n

still_closed :
    (s : System) → s.closer ≡ putting 0 → IsNotified s → IsNotified (record s { closer = idle })
still_closed s e (inl p) = inl p
still_closed s e (inr (inl p)) = none_left s.closer e p
still_closed s e (inr (inr t)) = inr (inr t)

-- What is still so if there is no news, and otherwise.
or_still {ℓ} : {A B C : Type ℓ} → (B → C) → A ⊎ B → A ⊎ C
or_still f (inl a) = inl a
or_still f (inr b) = inr (f b)

Step-IsKept : {s t : System} → Step 1 s t → IsKept s → IsKept t
Step-IsKept {s} (lock zero count lt e free) h = (at s h e, refl)
Step-IsKept {s} (finish zero lt e came) h = (at s h e).0
Step-IsKept {s} (leave zero lt e closed) h = (at s h e).0
Step-IsKept {s} (give_up zero lt e) h = (at s h e).0
Step-IsKept {s} (register zero lt e not_yet open_image) h =
    let (w, o) = at s h e in (omega arith, o, (not_yet, open_image))
Step-IsKept {s} (unlock zero lt e) h = let (w, o, c) = at s h e in (w, inl c)
Step-IsKept {s} (take zero lt e some_left) h = (at s h e).0
Step-IsKept {s} (expire zero lt e) h = (at s h e).0
Step-IsKept {s} (deregister zero lt e) h = let w = at s h e in omega arith
Step-IsKept {s} (relock zero lt e free) h = (at s h e, refl)
Step-IsKept (lock (suc i) count lt e free) h = absurd (omega arith)
Step-IsKept (finish (suc i) lt e came) h = absurd (omega arith)
Step-IsKept (leave (suc i) lt e closed) h = absurd (omega arith)
Step-IsKept (give_up (suc i) lt e) h = absurd (omega arith)
Step-IsKept (register (suc i) lt e not_yet open_image) h = absurd (omega arith)
Step-IsKept (unlock (suc i) lt e) h = absurd (omega arith)
Step-IsKept (take (suc i) lt e some_left) h = absurd (omega arith)
Step-IsKept (expire (suc i) lt e) h = absurd (omega arith)
Step-IsKept (deregister (suc i) lt e) h = absurd (omega arith)
Step-IsKept (relock (suc i) lt e free) h = absurd (omega arith)
Step-IsKept {s} (publish e free) h =
    carry s (record s { count = s.count + 1; publisher = published }) (s.phase 0) refl refl
      (λ o q. not_free s free o) (λ w n. inr (inl (inl refl))) h
Step-IsKept {s} (load e) h =
    carry s (record s { publisher = putting s.waiters }) (s.phase 0) refl refl (λ o q. q)
      (λ w n. inr (inl (inr (0, ap putting w)))) h
Step-IsKept {s} (put k e) h =
    carry s (record s { tokens = s.tokens + 1; publisher = putting k }) (s.phase 0) refl refl
      (λ o q. q) (λ w n. inr (inr (inr (omega arith)))) h
Step-IsKept {s} (done e) h =
    carry s (record s { publisher = idle }) (s.phase 0) refl refl (λ o q. q)
      (λ w n. or_still (still_published s e) n) h
Step-IsKept {s} (close e free) h =
    carry s (record s { closed = true; closer = published }) (s.phase 0) refl refl
      (λ o q. not_free s free o) (λ w n. inr (inr (inl (inl refl)))) h
Step-IsKept {s} (load_closed e) h =
    carry s (record s { closer = putting s.waiters }) (s.phase 0) refl refl (λ o q. q)
      (λ w n. inr (inr (inl (inr (0, ap putting w))))) h
Step-IsKept {s} (put_closed k e) h =
    carry s (record s { tokens = s.tokens + 1; closer = putting k }) (s.phase 0) refl refl
      (λ o q. q) (λ w n. inr (inr (inr (omega arith)))) h
Step-IsKept {s} (done_closed e) h =
    carry s (record s { closer = idle }) (s.phase 0) refl refl (λ o q. q)
      (λ w n. or_still (still_closed s e) n) h

Reach-IsKept : {s t : System} → Reach 1 s t → IsKept s → IsKept t
Reach-IsKept here h = h
Reach-IsKept (next r st) h = Step-IsKept st (Reach-IsKept r h)

-- A thread that is the only one to wait never sleeps through what it waits for, in any of its calls:
-- while it is in tx_semaphore_get although the image is closed, or the exchange that the call waits for
-- is published, a token is there, or the thread that published the exchange or closed the image has yet
-- to notify it.
pub alone-IsNotified :
    (count : ℕ) {s : System}
    → Reach 1 (fresh count) s
    → s.phase 0 ≡ getting
    → (s.goal 0 < s.count) ⊎ (s.closed ≡ true)
    → IsNotified s
alone-IsNotified count {s} r e news = elim (at s (Reach-IsKept r refl) e).1 [
  | inl quiet ↦ elim news [
    | inl came ↦ absurd (omega (arith, quiet.0))
    | inr closed ↦ absurd (cc (quiet.1, closed))
  ]
  | inr notified ↦ notified
]
