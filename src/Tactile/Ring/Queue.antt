-- ===== src/Tactile/Ring/Queue.antt =====
-- The circular buffer of tsf/sdk_cpp/circular_buffer.h is a bounded queue that loses its oldest
-- element when it is full.
use tactile_sensors.Base.{
  ℕ, List, Option, [], arith, dec_lt, inl, inr, length, suc, zero, ◌%◌, ◌+◌, ◌-◌, ◌<◌, ◌^◌, ◌∙◌,
  ◌∷◌, ◌≡◌, ◌≢◌, ◌≤◌, ◌⊎◌, ap, ap₂, drop, if◌then◌else◌, length-set, refl, set, some, ◌++◌, ◌==◌,
  sym, ==→eq, Bool-cases, eq→==, false,
}
use tactile_sensors.Tactile.Ring.{Ring, cell, add_size, push}
use native.Mathlib.Nat.{mod-eq_of_lt, mod-eq-sub-mod, mod-add-mod}

-- The storage is not empty, not half the address space, and the indices are inside.
pub record IsRing {ℓ} {A : Type ℓ} (r : Ring A) : Type 0 where
  pub room : 0 < length r.buffer
  pub small : length r.buffer ≤ 2 ^ 63
  pub start_in : r.start < length r.buffer
  pub count_in : r.count ≤ length r.buffer

-- Once round at most.
mod_once : (x n : ℕ) → x < n + n → ((x < n) × (x % n ≡ x)) ⊎ ((n ≤ x) × (x % n ≡ x - n))
mod_once x n h = elim (dec_lt x n) [
  | yes p ↦ inl (p, mod-eq_of_lt p)
  | no p ↦ inr (
    omega arith,
    mod-eq-sub-mod {n = x} {m = n} (omega arith) ∙ mod-eq_of_lt {n = x - n} {m = n} (omega arith),
  )
]

-- Different offsets less than a turn apart meet different cells.
mod-ne : (s a b n : ℕ) → s < n → a < b → b < a + n → b ≤ n → (s + a) % n ≢ (s + b) % n
mod-ne s a b n hs h k l e = elim (mod_once (s + a) n (omega arith)) [
  | inl p ↦ elim (mod_once (s + b) n (omega arith)) [ inl q ↦ omega arith | inr q ↦ omega arith ]
  | inr p ↦ elim (mod_once (s + b) n (omega arith)) [ inl q ↦ omega arith | inr q ↦ omega arith ]
]

module _ {ℓ} {A : Type ℓ} where
  -- The elements at offsets `i`, `i + 1`, …, `k` of them.
  unfoldable pub window : List A → ℕ → ℕ → ℕ → List (Option A)
  window buffer start i zero = []
  window buffer start i (suc k) =
      cell buffer ((start + i) % length buffer) ∷ window buffer start (i + 1) k

  -- What a client sees: the elements, oldest first.
  abbrev pub contents : Ring A → List (Option A)
  contents r = window r.buffer r.start 0 r.count

  cell-set_self : (xs : List A) (i : ℕ) (t : A) → i < length xs → cell (set xs i t) i ≡ some t
  unfolding cell
  cell-set_self [] i t h = absurd (omega arith)
  cell-set_self (x ∷ xs) zero t h = refl
  cell-set_self (x ∷ xs) (suc i) t h = cell-set_self xs i t (omega arith)

  cell-set_ne : (xs : List A) (i j : ℕ) (t : A) → j ≢ i → cell (set xs i t) j ≡ cell xs j
  unfolding cell
  cell-set_ne [] i j t h = refl
  cell-set_ne (x ∷ xs) zero zero t h = absurd (h refl)
  cell-set_ne (x ∷ xs) zero (suc j) t h = refl
  cell-set_ne (x ∷ xs) (suc i) zero t h = refl
  cell-set_ne (x ∷ xs) (suc i) (suc j) t h = cell-set_ne xs i j t (λ e. h (ap suc e))

  -- A write at offset `c` is not seen by a window that ends before it.
  window-set :
      (buffer : List A) (t : A) (start c i k : ℕ)
      → start < length buffer
      → i + k ≤ c
      → c < i + length buffer
      → c ≤ length buffer
      → window (set buffer ((start + c) % length buffer) t) start i k ≡ window buffer start i k
  unfolding window
  window-set buffer t start c i zero hs h l m = refl
  window-set buffer t start c i (suc k) hs h l m =
      let at = (start + c) % length buffer in
      rw (length-set buffer at t) (
        ap₂ ◌∷◌
          (cell-set_ne buffer at ((start + i) % length buffer) t
            (mod-ne start i c (length buffer) hs (omega arith) l m))
          (window-set buffer t start c (i + 1) k hs (omega arith) (omega arith) m))

  pub window-snoc :
      (buffer : List A) (start i k : ℕ)
      → window buffer start i (suc k)
        ≡ window buffer start i k ++ cell buffer ((start + (i + k)) % length buffer) ∷ []
  unfolding window
  window-snoc buffer start i zero =
      ap (λ j. cell buffer ((start + j) % length buffer) ∷ []) (omega arith)
  window-snoc buffer start i (suc k) = ap (◌∷◌ (cell buffer ((start + i) % length buffer))) (
      window-snoc buffer start (i + 1) k
      ∙ ap (λ j. window buffer start (i + 1) k ++ cell buffer ((start + j) % length buffer) ∷ [])
          (omega arith))

  -- Moving the start by one moves every offset by one.
  pub window-next :
      (buffer : List A) (start i k : ℕ)
      → window buffer ((start + 1) % length buffer) i k ≡ window buffer start (i + 1) k
  unfolding window
  window-next buffer start i zero = refl
  window-next buffer start i (suc k) =
      ap₂ ◌∷◌ (ap (cell buffer) (rw mod-add-mod (ap (λ x. x % length buffer) (omega arith))))
        (window-next buffer start (i + 1) k)

  length-window : (buffer : List A) (start i k : ℕ) → length (window buffer start i k) ≡ k
  unfolding window
  length-window buffer start i zero = refl
  length-window buffer start i (suc k) = ap suc (length-window buffer start (i + 1) k)

  pub push-IsRing : (r : Ring A) (t : A) → IsRing r → IsRing (push r t)
  unfolding push
  push-IsRing r t v =
      ground (arith, length-set r.buffer (add_size r.start r.count % length r.buffer) t)

  -- The window after a write just past it, with room for one more element.
  window-extend :
      (buffer : List A) (t : A) (start c i k : ℕ)
      → start < length buffer
      → c ≡ i + k
      → c < i + length buffer
      → c ≤ length buffer
      → window (set buffer ((start + c) % length buffer) t) start i (suc k)
        ≡ window buffer start i k ++ some t ∷ []
  window-extend buffer t start c i k hs e l m =
      let at = (start + c) % length buffer in
      let written = set buffer at t in
      let same_cell : (start + (i + k)) % length written ≡ at =
        rw (length-set buffer at t, e) refl in
      window-snoc written start i k
      ∙ ap₂ (λ (xs : List (Option A)) (x : Option A). xs ++ x ∷ [])
          (window-set buffer t start c i k hs (omega arith) l m)
          (ap (cell written) same_cell ∙ cell-set_self buffer at t (omega arith))

  window-push_full :
      (buffer : List A) (t : A) (start count : ℕ)
      → start < length buffer
      → count ≡ length buffer
      → let written = set buffer ((start + count) % length buffer) t in
        window written ((start + 1) % length buffer) 0 count
        ≡ drop 1 (window buffer start 0 count) ++ some t ∷ []
  unfolding window
  window-push_full buffer t start zero hs e = absurd (omega arith)
  window-push_full buffer t start (suc m) hs e =
      let at = (start + suc m) % length buffer in
      let written = set buffer at t in
      ap (λ n. window written ((start + 1) % n) 0 (suc m)) (sym (length-set buffer at t))
      ∙ window-next written start 0 (suc m)
      ∙ window-extend buffer t start (suc m) (0 + 1) m hs (omega arith) (omega arith) (omega arith)

  length-push : (r : Ring A) (t : A) → length (push r t).buffer ≡ length r.buffer
  unfolding push
  length-push r t =
      ground (arith, length-set r.buffer (add_size r.start r.count % length r.buffer) t)

  sizes_fit :
      (r : Ring A)
      → IsRing r
      → (add_size r.start r.count ≡ r.start + r.count)
        × (add_size r.start 1 ≡ r.start + 1)
        × (add_size r.count 1 ≡ suc r.count)
  sizes_fit r v = omega arith

  contents-push_full :
      (r : Ring A) (t : A)
      → IsRing r
      → r.count ≡ length r.buffer
      → contents (push r t) ≡ drop 1 (contents r) ++ some t ∷ []
  unfolding push
  contents-push_full r t v e =
      let fit = sizes_fit r v in
      rw (eq→== r.count (length r.buffer) e, fit.0, fit.1)
        (window-push_full r.buffer t r.start r.count v.start_in e)

  contents-push_room :
      (r : Ring A) (t : A)
      → IsRing r
      → (r.count == length r.buffer) ≡ false
      → contents (push r t) ≡ contents r ++ some t ∷ []
  unfolding push
  contents-push_room r t v e =
      let fit = sizes_fit r v in
      rw (e, fit.0, fit.2)
        (window-extend r.buffer t r.start r.count 0 r.count v.start_in (omega arith) (ground arith)
          v.count_in)

  -- A push onto a buffer that has room appends the element; onto a full one it drops the oldest
  -- element and appends the new one. The buffer stays valid, and never holds more than its size.
  pub contents-push :
      (r : Ring A) (t : A)
      → IsRing r
      → (contents (push r t)
          ≡ (if r.count == length r.buffer then drop 1 (contents r) else contents r) ++ some t ∷ [])
        × IsRing (push r t)
        × (length (contents (push r t)) ≤ length r.buffer)
  contents-push r t v =
      let valid = push-IsRing r t v in
      let bound : length (contents (push r t)) ≤ length r.buffer = omega (
        arith,
        length-window (push r t).buffer (push r t).start 0 (push r t).count,
        valid.count_in,
        length-push r t,
      ) in
      elim (Bool-cases (r.count == length r.buffer)) [
        | inl full ↦ (
          rw full (contents-push_full r t v (==→eq r.count (length r.buffer) full)),
          valid,
          bound,
        )
        | inr room ↦ (rw room (contents-push_room r t v room), valid, bound)
      ]
