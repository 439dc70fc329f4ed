-- ===== src/Grippers/Platform/ThreadX.antt =====
-- ThreadXConditionVariable of ports/threadx/threadx_platform.hpp: a counting semaphore and a count of
-- waiters. It is modelled with its users in src/process_image.cpp: threads in `sync`, the thread that
-- publishes exchanges and one that closes the image. A step is what one thread does at once.
pub mod Tasks
pub mod Waiters
pub mod OneWaiter
pub mod Stolen
use tactile_sensors.Base.{
  Bool, false, true, Option, if◌then◌else◌, none, some, ◌+◌, ◌-◌, ◌<◌, ◌==◌, ◌≡◌, ◌≤◌, ℕ, suc,
}

-- Where a thread stands in `sync` and `waitUntil`.
pub data Phase : Type 0 where
  outside : Phase
  -- It holds the mutex and looks at the count.
  checking : Phase
  -- It is registered as a waiter and still holds the mutex.
  registered : Phase
  -- It is in tx_semaphore_get.
  getting : Phase
  -- tx_semaphore_get is over.
  woken : Phase
  -- It is no longer registered and wants the mutex back.
  returning : Phase

-- Where a thread stands in `publish` or `close`, and in `notifyAll`.
pub data Publisher : Type 0 where
  idle : Publisher
  -- The exchange or the flag is published and the mutex released.
  published : Publisher
  -- So many tokens remain to be put.
  putting : ℕ → Publisher

pub record System : Type 0 where
  pub owner : Option ℕ
  pub count : ℕ
  pub closed : Bool
  pub waiters : ℕ
  pub tokens : ℕ
  pub publisher : Publisher
  pub closer : Publisher
  pub phase : ℕ → Phase
  -- What each thread's `sync` was called with.
  pub goal : ℕ → ℕ

abbrev pub update {ℓ} : {A : Type ℓ} → (ℕ → A) → ℕ → A → ℕ → A
update f i a j = if j == i then a else f j

-- A step of one of `n` threads in `sync`, of the publisher or of the thread that closes the image.
pub data Step (n : ℕ) (s : System) : System → Type 0 where
  -- A call of `sync`, with any count.
  lock :
      (i count : ℕ)
      → i < n
      → s.phase i ≡ outside
      → s.owner ≡ none
      → Step n s (record s {
        owner = some i;
        phase = update s.phase i checking;
        goal = update s.goal i count;
      })
  -- The count has come.
  finish :
      (i : ℕ)
      → i < n
      → s.phase i ≡ checking
      → s.goal i < s.count
      → Step n s (record s { owner = none; phase = update s.phase i outside })
  -- The image is closed.
  leave :
      (i : ℕ)
      → i < n
      → s.phase i ≡ checking
      → s.closed ≡ true
      → Step n s (record s { owner = none; phase = update s.phase i outside })
  -- The clock says that the deadline is over.
  give_up :
      (i : ℕ)
      → i < n
      → s.phase i ≡ checking
      → Step n s (record s { owner = none; phase = update s.phase i outside })
  register :
      (i : ℕ)
      → i < n
      → s.phase i ≡ checking
      → s.count ≤ s.goal i
      → s.closed ≡ false
      → Step n s (record s { waiters = s.waiters + 1; phase = update s.phase i registered })
  unlock :
      (i : ℕ)
      → i < n
      → s.phase i ≡ registered
      → Step n s (record s { owner = none; phase = update s.phase i getting })
  take :
      (i : ℕ)
      → i < n
      → s.phase i ≡ getting
      → 0 < s.tokens
      → Step n s (record s { tokens = s.tokens - 1; phase = update s.phase i woken })
  -- The ticks are over.
  expire :
      (i : ℕ) → i < n → s.phase i ≡ getting → Step n s (record s { phase = update s.phase i woken })
  deregister :
      (i : ℕ)
      → i < n
      → s.phase i ≡ woken
      → Step n s (record s { waiters = s.waiters - 1; phase = update s.phase i returning })
  relock :
      (i : ℕ)
      → i < n
      → s.phase i ≡ returning
      → s.owner ≡ none
      → Step n s (record s { owner = some i; phase = update s.phase i checking })
  publish :
      s.publisher ≡ idle
      → s.owner ≡ none
      → Step n s (record s { count = s.count + 1; publisher = published })
  load : s.publisher ≡ published → Step n s (record s { publisher = putting s.waiters })
  put :
      (k : ℕ)
      → s.publisher ≡ putting (suc k)
      → Step n s (record s { tokens = s.tokens + 1; publisher = putting k })
  done : s.publisher ≡ putting 0 → Step n s (record s { publisher = idle })
  close :
      s.closer ≡ idle → s.owner ≡ none → Step n s (record s { closed = true; closer = published })
  load_closed : s.closer ≡ published → Step n s (record s { closer = putting s.waiters })
  put_closed :
      (k : ℕ)
      → s.closer ≡ putting (suc k)
      → Step n s (record s { tokens = s.tokens + 1; closer = putting k })
  done_closed : s.closer ≡ putting 0 → Step n s (record s { closer = idle })

pub data Reach (n : ℕ) (s : System) : System → Type 0 where
  here : Reach n s s
  next : {t u : System} → Reach n s t → Step n t u → Reach n s u

-- A condition variable before anybody uses it.
abbrev pub fresh : ℕ → System
fresh count = record {
  owner = none;
  count = count;
  closed = false;
  waiters = 0;
  tokens = 0;
  publisher = idle;
  closer = idle;
  phase = λ i. outside;
  goal = λ i. 0;
}
