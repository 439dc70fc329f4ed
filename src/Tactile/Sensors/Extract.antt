-- ===== src/Tactile/Sensors/Extract.antt =====
-- The array readers of tsf/sdk_cpp/RobotiqTactileSensor.cpp on an array that is all there.
use tactile_sensors.Base.{
  ℕ, List, [], ap, append_assoc, ap₂, arith, drop, get_or, length, length-set, length-append,
  lt→ltb, refl, set, suc, sym, zero, ◌%◌, ◌*◌, ◌++◌, ◌+◌, ◌/◌, ◌<◌, ◌^◌, ◌∙◌, ◌∷◌, ◌≡◌, ◌≤◌,
}
use tactile_sensors.Base.Store.{store, store-nil, store-step}
use tactile_sensors.Tactile.Sensors.{parse_big_endian2, extract16_from, put}
use tactile_sensors.Tactile.Sensors.Words.{big_endian2-halves}

-- 16-bit numbers, the high byte of each first.
unfoldable pub words : List ℕ → List ℕ
words [] = []
words (v ∷ vs) = v / 256 ∷ v % 256 ∷ words vs

-- Each element fits in 16 bits.
unfoldable pub IsWords : List ℕ → Type 0
IsWords [] = Unit
IsWords (v ∷ vs) = (v < 2 ^ 16) × IsWords vs

pub length-words : (vs : List ℕ) → length (words vs) ≡ 2 * length vs
unfolding words
length-words [] = refl
length-words (v ∷ vs) = omega (arith, length-words vs)

pub get_or-append :
    (xs ys : List ℕ) (n k d : ℕ) → n ≡ length xs + k → get_or (xs ++ ys) n d ≡ get_or ys k d
get_or-append [] ys n k d h = ap (λ n. get_or ys n d) (let e : n ≡ k = omega arith in e)
get_or-append (x ∷ xs) ys zero k d h = absurd (omega arith)
get_or-append (x ∷ xs) ys (suc n) k d h = get_or-append xs ys n k d (omega arith)

pub drop-append_cons :
    (xs : List ℕ) (y : ℕ) (ys : List ℕ) (n : ℕ) → n ≡ length xs + 1 → drop n (xs ++ (y ∷ ys)) ≡ ys
drop-append_cons [] y ys zero h = absurd (omega arith)
drop-append_cons [] y ys (suc n) h = ap (λ n. drop n ys) (let e : n ≡ 0 = omega arith in e)
drop-append_cons (x ∷ xs) y ys zero h = absurd (omega arith)
drop-append_cons (x ∷ xs) y ys (suc n) h = drop-append_cons xs y ys n (omega arith)

extract16_from-zero :
    (cur : ℕ) (to bytes : List ℕ) (size : ℕ) → extract16_from zero cur to bytes size ≡ (to, cur)
unfolding extract16_from
extract16_from-zero cur to bytes size = refl

put-set : (xs : List ℕ) (i v : ℕ) → i < length xs → put xs i v ≡ set xs i v
unfolding put
put-set [] i v h = absurd (omega arith)
put-set (x ∷ xs) zero v h = refl
put-set (x ∷ xs) (suc i) v h = ap (◌∷◌ x) (put-set xs i v (omega arith))

-- A write within the array keeps its size.
pub length-put : (xs : List ℕ) (i v : ℕ) → i < length xs → length (put xs i v) ≡ length xs
length-put xs i v h = rw (put-set xs i v h) (length-set xs i v)

extract16_from-step :
    (left cur : ℕ) (to bytes : List ℕ) (size v : ℕ)
    → cur < length to
    → parse_big_endian2 (get_or bytes (2 * cur) 0) (get_or bytes (2 * cur + 1) 0) ≡ v
    → 2 * cur + 1 < size
    → extract16_from (suc left) cur to bytes size
      ≡ extract16_from left (cur + 1) (set to cur v) bytes size
unfolding extract16_from
extract16_from-step left cur to bytes size v inside e h =
    rw (lt→ltb (2 * cur + 1) size h, e)
      (ap (λ xs. extract16_from left (cur + 1) xs bytes size) (put-set to cur v inside))

-- An array that is all there is read whole.
pub extract16_from-words :
    (vs done rest : List ℕ) (cur : ℕ) (to : List ℕ) (size : ℕ)
    → IsWords vs
    → length done ≡ 2 * cur
    → cur + length vs ≤ length to
    → 2 * (cur + length vs) ≤ size
    → extract16_from (length vs) cur to (done ++ (words vs ++ rest)) size
      ≡ (store to cur vs, cur + length vs)
unfolding words IsWords
extract16_from-words [] done rest cur to size w e room h =
    extract16_from-zero cur to (done ++ rest) size
    ∙ ap₂ (λ a b. (a, b)) (sym (store-nil to cur)) (omega arith)
extract16_from-words (v ∷ vs) done rest cur to size w e room h =
    let tail = words vs ++ rest in
    let bytes = done ++ (v / 256 ∷ v % 256 ∷ tail) in
    let hi : get_or bytes (2 * cur) 0 ≡ v / 256 =
      get_or-append done (v / 256 ∷ v % 256 ∷ tail) (2 * cur) 0 0 (omega arith) in
    let lo : get_or bytes (2 * cur + 1) 0 ≡ v % 256 =
      get_or-append done (v / 256 ∷ v % 256 ∷ tail) (2 * cur + 1) 1 0 (omega arith) in
    let value : parse_big_endian2 (get_or bytes (2 * cur) 0) (get_or bytes (2 * cur + 1) 0) ≡ v =
      rw (hi, lo) (big_endian2-halves v w.0) in
    let split : bytes ≡ (done ++ (v / 256 ∷ v % 256 ∷ [])) ++ tail =
      sym (append_assoc done (v / 256 ∷ v % 256 ∷ []) tail) in
    let end : cur + 1 + length vs ≡ cur + suc (length vs) = omega arith in
    extract16_from-step (length vs) cur to bytes size v (omega arith) value (omega arith)
    ∙ ap (λ bs. extract16_from (length vs) (cur + 1) (set to cur v) bs size) split
    ∙ extract16_from-words vs (done ++ (v / 256 ∷ v % 256 ∷ [])) rest (cur + 1) (set to cur v) size
        w.1 (omega (arith, length-append done (v / 256 ∷ v % 256 ∷ []), e))
        (omega (arith, length-set to cur v)) (omega arith)
    ∙ ap₂ (λ a b. (a, b)) (sym (store-step to cur v vs)) end
