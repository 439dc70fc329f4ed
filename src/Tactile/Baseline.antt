-- ===== src/Tactile/Baseline.antt =====
-- The baseline of the static taxels: `findBaseline` of tsf/sdk_cpp/RobotiqTactileSensor.cpp. What it
-- sees of the thread that fills the samples is a function of the poll: how many samples there are,
-- and whether the sensor is still connected.
pub mod Average
pub mod Wait
use tactile_sensors.Base.{
  ℕ, Bool, List, Option, [], false, if◌then◌else◌, inl, inr, ltb, map, none, not, replicate, some,
  suc, zero, ◌%◌, ◌+◌, ◌/◌, ◌==◌, ◌^◌, ◌∷◌, ◌⊎◌,
}
use tactile_sensors.Tactile.Sensors.{Fingers, FingerData, finger, static_count}
use tactile_sensors.Tactile.Reader.{sample_count}

abbrev pub max_timeout : ℕ
max_timeout = 500

pub data BaselineError : Type 0 where
  not_connected connection_lost : BaselineError
  timed_out : ℕ → BaselineError

-- The wait for the samples from poll `k` on, `left` polls before the last one is one too many.
unfoldable pub wait_for_samples : (ℕ → ℕ × Bool) → ℕ → ℕ → Option BaselineError
wait_for_samples poll zero k = some (timed_out (poll k).0)
wait_for_samples poll (suc left) k =
    let rest = wait_for_samples poll left (k + 1) in
    if not (poll k).1
    then some connection_lost
    else if left == 0
    then some (timed_out (poll k).0)
    else if ltb (poll k).0 sample_count
    then rest
    else none

-- `accumulator[f][i] += ...` for each taxel: a uint32_t.
unfoldable pub add_taxels : List ℕ → List ℕ → List ℕ
add_taxels [] ts = []
add_taxels (a ∷ accs) [] = a ∷ accs
add_taxels (a ∷ accs) (t ∷ ts) = (a + t) % 2 ^ 32 ∷ add_taxels accs ts

unfoldable pub accumulate : ℕ → List Fingers → List ℕ → List ℕ
unfolding add_taxels
accumulate f [] acc = acc
accumulate f (s ∷ samples) acc = accumulate f samples (add_taxels acc (finger s f).static_tactile)

-- The stored average, a uint16_t.
unfoldable pub averages : ℕ → List Fingers → List ℕ
unfolding accumulate
averages f samples = map (λ a. a / 1000 % 2 ^ 16) (accumulate f samples (replicate static_count 0))

-- `memset` of the result.
abbrev pub zero_finger : FingerData
zero_finger = record {
  new_data_available = false;
  static_tactile = replicate static_count 0;
  dynamic_tactile = 0 ∷ [];
  accelerometer = replicate 3 0;
  gyroscope = replicate 3 0;
  temperature = 0;
  timestamp = 0;
  baseline = replicate static_count 0;
}

unfoldable pub baseline_of : List Fingers → Fingers
unfolding averages
baseline_of samples = record {
  timestamp = 0;
  finger0 = record zero_finger { baseline = averages 0 samples };
  finger1 = record zero_finger { baseline = averages 1 samples };
}

-- The whole call, with the samples that the thread has left at its end.
unfoldable pub find_baseline : Bool → (ℕ → ℕ × Bool) → List Fingers → BaselineError ⊎ Fingers
unfolding wait_for_samples baseline_of
find_baseline connected poll samples =
    if not connected then inl not_connected else elim (wait_for_samples poll max_timeout 0) [
      | some e ↦ inl e
      | none ↦ inr (baseline_of samples)
    ]
