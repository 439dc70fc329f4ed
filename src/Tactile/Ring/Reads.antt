-- ===== src/Tactile/Ring/Reads.antt =====
-- Reading the circular buffer of tsf/sdk_cpp/circular_buffer.h as the queue of its contents.
use tactile_sensors.Base.{
  ℕ, ==→eq, Bool, Bool-cases, List, Option, [], ap, ap₂, arith, drop, eq→==, false, inl, inr,
  length, none, refl, suc, sym, true, zero, ◌%◌, ◌++◌, ◌+◌, ◌-◌, ◌<◌, ◌==◌, ◌^◌, ◌∙◌, ◌∷◌, ◌≡◌, ◌≢◌,
  ◌≤◌,
}
use tactile_sensors.Tactile.Ring.{Ring, cell, pop, front, back, extract, extract_from, add_size}
use tactile_sensors.Tactile.Ring.Queue.{window, contents, IsRing, window-next, window-snoc}
use native.Mathlib.Nat.{mod-eq_of_lt, add-zero}

module _ {ℓ} {A : Type ℓ} where
  -- The first and the last element of what a client sees; `none` of nothing.
  pub oldest : List (Option A) → Option A
  oldest [] = none
  oldest (x ∷ xs) = x

  pub newest : List (Option A) → Option A
  newest [] = none
  newest (x ∷ []) = x
  newest (x ∷ y ∷ xs) = newest (y ∷ xs)

  newest-snoc : (xs : List (Option A)) (x : Option A) → newest (xs ++ x ∷ []) ≡ x
  unfolding newest
  newest-snoc [] x = refl
  newest-snoc (y ∷ []) x = refl
  newest-snoc (y ∷ z ∷ xs) x = newest-snoc (z ∷ xs) x

  extract_from-window :
      (r : Ring A) (i k : ℕ)
      → IsRing r
      → i + k ≤ r.count
      → extract_from r i k ≡ window r.buffer r.start i k
  unfolding extract_from window
  extract_from-window r i zero v h = refl
  extract_from-window r i (suc k) v h =
      let fit : add_size r.start i ≡ r.start + i = omega arith in
      ap₂ ◌∷◌ (ap (λ x. cell r.buffer (x % length r.buffer)) fit)
        (extract_from-window r (i + 1) k v (omega arith))

  pop-window :
      (buffer : List A) (start count : ℕ)
      → 0 < length buffer
      → start < length buffer
      → count ≢ 0
      → (cell buffer start ≡ oldest (window buffer start 0 count))
        × (window buffer ((start + 1) % length buffer) 0 (count - 1)
            ≡ drop 1 (window buffer start 0 count))
  unfolding window oldest
  pop-window buffer start zero room hs h = absurd (h refl)
  pop-window buffer start (suc m) room hs h = (
    ap (cell buffer) (rw add-zero (sym (mod-eq_of_lt hs))),
    ap (window buffer ((start + 1) % length buffer) 0) (omega arith) ∙ window-next buffer start 0 m,
  )

  -- The cell that `back` reads is the last of the window.
  newest-window :
      (buffer : List A) (start count : ℕ)
      → count ≢ 0
      → newest (window buffer start 0 count) ≡ cell buffer ((start + (count - 1)) % length buffer)
  newest-window buffer start zero h = absurd (h refl)
  newest-window buffer start (suc m) h =
      ap newest (window-snoc buffer start 0 m)
      ∙ newest-snoc (window buffer start 0 m) (cell buffer ((start + (0 + m)) % length buffer))
      ∙ ap (λ j. cell buffer ((start + j) % length buffer)) (omega arith)

  back_index :
      (r : Ring A)
      → IsRing r
      → r.count ≢ 0
      → (add_size r.start r.count + 2 ^ 64 - 1) % 2 ^ 64 ≡ r.start + (r.count - 1)
  back_index r v h = omega arith

  -- What the reads of an empty buffer give, and of one that holds something.
  pub record Reads (r : Ring A) (consume : Bool) : Type ℓ where
    pub popped : (pop r).0 ≡ oldest (contents r)
    pub left : contents (pop r).1 ≡ drop 1 (contents r)
    pub valid : IsRing (pop r).1
    pub first : front r ≡ oldest (contents r)
    pub last : back r ≡ newest (contents r)
    pub all : (extract r consume).0 ≡ contents r

  extract-contents : (r : Ring A) (consume : Bool) → IsRing r → (extract r consume).0 ≡ contents r
  unfolding extract
  extract-contents r consume v = extract_from-window r 0 r.count v (omega arith)

  Reads-empty : (r : Ring A) (consume : Bool) → IsRing r → r.count ≡ 0 → Reads r consume
  unfolding pop front back oldest newest window
  Reads-empty r consume v e =
      let test : (r.count == 0) ≡ true = eq→== r.count 0 e in
      let none_held : contents r ≡ [] = ap (window r.buffer r.start 0) e in
      record {
        popped = rw (test, none_held) refl;
        left = rw (test, none_held) refl;
        valid = rw test v;
        first = rw (test, none_held) refl;
        last = rw (test, none_held) refl;
        all = extract-contents r consume v;
      }

  Reads-held : (r : Ring A) (consume : Bool) → IsRing r → (r.count == 0) ≡ false → Reads r consume
  unfolding pop front back
  Reads-held r consume v test =
      let held : r.count ≢ 0 = ground arith in
      let both = pop-window r.buffer r.start r.count v.room v.start_in held in
      let next : add_size r.start 1 ≡ r.start + 1 = omega arith in
      record {
        popped = rw test both.0;
        left = rw (test, next) both.1;
        valid = rw test (omega arith);
        first = rw test both.0;
        last = rw (test, back_index r v held) (sym (newest-window r.buffer r.start r.count held));
        all = extract-contents r consume v;
      }

  -- A pop hands back the oldest element and leaves the others in order; of an empty buffer it
  -- leaves everything. `front`, `back` and `extract` see the oldest element, the newest and all.
  pub Ring-Reads : (r : Ring A) (consume : Bool) → IsRing r → Reads r consume
  Ring-Reads r consume v = elim (Bool-cases (r.count == 0)) [
    | inl e ↦ Reads-empty r consume v (==→eq r.count 0 e)
    | inr e ↦ Reads-held r consume v e
  ]
