-- ===== src/Tactile/Ring.antt =====
-- `SafeCircularBuffer`: tsf/sdk_cpp/circular_buffer.h. Each method holds the mutex from its first to
-- its last line, so it is one step. An element that the code leaves uninitialised, where a read
-- meets an empty buffer, is `none`. Sums of sizes are in size_t.
pub mod Queue
pub mod Reads
use tactile_sensors.Base.{
  ℕ, Bool, List, Option, [], if◌then◌else◌, length, none, set, some, suc, zero, ◌%◌, ◌+◌, ◌-◌, ◌==◌,
  ◌^◌, ◌∷◌,
}

abbrev pub add_size : ℕ → ℕ → ℕ
add_size a b = (a + b) % 2 ^ 64

pub record Ring {ℓ} (A : Type ℓ) : Type ℓ where
  pub buffer : List A
  pub start : ℕ
  pub count : ℕ

module _ {ℓ} {A : Type ℓ} where
  pub cell : List A → ℕ → Option A
  cell [] i = none
  cell (x ∷ xs) zero = some x
  cell (x ∷ xs) (suc i) = cell xs i

  -- The constructor, over the storage that it allocates.
  pub new_ring : List A → Ring A
  new_ring storage = record { buffer = storage; start = 0; count = 0 }

  pub size : Ring A → ℕ
  size r = r.count

  pub empty : Ring A → Bool
  unfolding size
  empty r = size r == 0

  pub push : Ring A → A → Ring A
  push r t =
      let n = length r.buffer in
      let written = record r { buffer = set r.buffer (add_size r.start r.count % n) t } in
      if r.count == n
      then record written { start = add_size r.start 1 % n }
      else record written { count = add_size r.count 1 }

  pub pop : Ring A → Option A × Ring A
  unfolding cell
  pop r = if r.count == 0 then (none, r) else (
    cell r.buffer r.start,
    record r { start = add_size r.start 1 % length r.buffer; count = r.count - 1 },
  )

  pub front : Ring A → Option A
  unfolding cell
  front r = if r.count == 0 then none else cell r.buffer r.start

  -- `start + count - 1`, whose difference is taken after the sum.
  pub back : Ring A → Option A
  unfolding cell
  back r =
      if r.count == 0
      then none
      else cell r.buffer ((add_size r.start r.count + 2 ^ 64 - 1) % 2 ^ 64 % length r.buffer)

  pub clear : Ring A → Ring A
  clear r = record r { start = 0; count = 0 }

  -- The loop of `extract`, from `i` on with `n` rounds left.
  pub extract_from : Ring A → ℕ → ℕ → List (Option A)
  unfolding cell
  extract_from r i zero = []
  extract_from r i (suc n) =
      cell r.buffer (add_size r.start i % length r.buffer) ∷ extract_from r (i + 1) n

  pub extract : Ring A → Bool → List (Option A) × Ring A
  unfolding extract_from
  extract r consume =
      (extract_from r 0 r.count, if consume then record r { start = 0; count = 0 } else r)
