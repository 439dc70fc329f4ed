-- ===== src/Tactile/Baseline/Average.antt =====
-- The arithmetic of `findBaseline` in tsf/sdk_cpp/RobotiqTactileSensor.cpp.
use native.Mathlib.Nat.{mul-suc}
use tactile_sensors.Tactile.Reader.{sample_count}
use tactile_sensors.Base.{
  ℕ, length, List, [], ap, arith, get_or, refl, suc, zero, ◌%◌, ◌*◌, ◌+◌, ◌-◌, ◌<◌, ◌^◌, ◌∙◌, ◌∷◌,
  ◌≡◌, ◌≤◌, map, replicate, subst, ◌/◌,
}
use tactile_sensors.Tactile.Sensors.{Fingers, finger, static_count}
use tactile_sensors.Tactile.Baseline.{add_taxels, accumulate, averages}

-- The sum of one taxel over the samples, not wrapped.
abbrev pub total : ℕ → ℕ → List Fingers → ℕ
total f i [] = 0
total f i (s ∷ samples) = get_or (finger s f).static_tactile i 0 + total f i samples

-- A taxel of every sample lies between the bounds.
unfoldable pub Between : ℕ → ℕ → ℕ → ℕ → List Fingers → Type 0
Between f i lo hi [] = Unit
Between f i lo hi (s ∷ samples) =
    (lo ≤ get_or (finger s f).static_tactile i 0)
    × (get_or (finger s f).static_tactile i 0 ≤ hi)
    × (i < length (finger s f).static_tactile)
    × Between f i lo hi samples

total-Between :
    (f i lo hi : ℕ) (samples : List Fingers)
    → Between f i lo hi samples
    → (lo * length samples ≤ total f i samples) × (total f i samples ≤ hi * length samples)
unfolding Between
total-Between f i lo hi [] h = (omega arith, omega arith)
total-Between f i lo hi (s ∷ samples) h =
    let rest = total-Between f i lo hi samples h.3 in
    (
      omega (arith, rest.0, h.0, mul-suc lo (length samples)),
      omega (arith, rest.1, h.1, mul-suc hi (length samples)),
    )

length-add_taxels : (accs ts : List ℕ) → length (add_taxels accs ts) ≡ length accs
unfolding add_taxels
length-add_taxels [] ts = refl
length-add_taxels (a ∷ accs) [] = refl
length-add_taxels (a ∷ accs) (t ∷ ts) = ap suc (length-add_taxels accs ts)

get_or-add_taxels :
    (accs ts : List ℕ) (i : ℕ)
    → i < length accs
    → i < length ts
    → get_or (add_taxels accs ts) i 0 ≡ (get_or accs i 0 + get_or ts i 0) % 2 ^ 32
unfolding add_taxels
get_or-add_taxels [] ts i h k = absurd (omega arith)
get_or-add_taxels (a ∷ accs) [] i h k = absurd (omega arith)
get_or-add_taxels (a ∷ accs) (t ∷ ts) zero h k = refl
get_or-add_taxels (a ∷ accs) (t ∷ ts) (suc i) h k =
    get_or-add_taxels accs ts i (omega arith) (omega arith)

get_or-accumulate :
    (f i lo hi : ℕ) (samples : List Fingers) (acc : List ℕ)
    → Between f i lo hi samples
    → hi < 2 ^ 16
    → i < length acc
    → get_or acc i 0 + (2 ^ 16 - 1) * length samples < 2 ^ 32
    → get_or (accumulate f samples acc) i 0 ≡ get_or acc i 0 + total f i samples
unfolding accumulate Between
get_or-accumulate f i lo hi [] acc h w k small = omega arith
get_or-accumulate f i lo hi (s ∷ samples) acc h w k small =
    let ts = (finger s f).static_tactile in
    let one : get_or (add_taxels acc ts) i 0 ≡ get_or acc i 0 + get_or ts i 0 =
      omega (arith, get_or-add_taxels acc ts i k h.2, h.1) in
    get_or-accumulate f i lo hi samples (add_taxels acc ts) h.3 w
      (omega (arith, length-add_taxels acc ts)) (omega (arith, one, h.1))
    ∙ omega (arith, one)

get_or-map :
    (g : ℕ → ℕ) (xs : List ℕ) (i : ℕ) → i < length xs → get_or (map g xs) i 0 ≡ g (get_or xs i 0)
get_or-map g [] i h = absurd (omega arith)
get_or-map g (x ∷ xs) zero h = refl
get_or-map g (x ∷ xs) (suc i) h = get_or-map g xs i (omega arith)

length-accumulate :
    (f : ℕ) (samples : List Fingers) (acc : List ℕ) → length (accumulate f samples acc) ≡ length acc
unfolding accumulate
length-accumulate f [] acc = refl
length-accumulate f (s ∷ samples) acc =
    length-accumulate f samples (add_taxels acc (finger s f).static_tactile)
    ∙ length-add_taxels acc (finger s f).static_tactile

get_or-replicate : (n i : ℕ) → get_or {A = ℕ} (replicate n 0) i 0 ≡ 0
get_or-replicate zero i = refl
get_or-replicate (suc n) zero = refl
get_or-replicate (suc n) (suc i) = get_or-replicate n i

-- If a taxel of all of the 1000 samples lies between two 16-bit bounds, no sum wraps and the average
-- is stored whole: it is the true sum divided by 1000, rounded down, and it lies between the same
-- bounds.
pub averages-total :
    (f i lo hi : ℕ) (samples : List Fingers)
    → i < static_count
    → length samples ≡ sample_count
    → Between f i lo hi samples
    → hi < 2 ^ 16
    → (get_or (averages f samples) i 0 ≡ total f i samples / 1000)
      × (lo ≤ get_or (averages f samples) i 0)
      × (get_or (averages f samples) i 0 ≤ hi)
unfolding averages
averages-total f i lo hi samples here size h w =
    let zeros : List ℕ = replicate static_count 0 in
    let start : get_or zeros i 0 ≡ 0 = get_or-replicate static_count i in
    let sum : get_or (accumulate f samples zeros) i 0 ≡ total f i samples =
      get_or-accumulate f i lo hi samples zeros h w here (omega (arith, start, size))
      ∙ omega (arith, start) in
    let between = total-Between f i lo hi samples h in
    let low : lo * 1000 ≤ total f i samples =
      subst (λ n. lo * n ≤ total f i samples) size between.0 in
    let high : total f i samples ≤ hi * 1000 =
      subst (λ n. total f i samples ≤ hi * n) size between.1 in
    let stored : get_or (averages f samples) i 0 ≡ total f i samples / 1000 =
      get_or-map (λ a. a / 1000 % 2 ^ 16) (accumulate f samples zeros) i
        (omega (arith, length-accumulate f samples zeros, here))
      ∙ omega (arith, sum, high, w) in
    (stored, omega (arith, stored, low), omega (arith, stored, high))
