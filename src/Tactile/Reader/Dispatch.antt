-- ===== src/Tactile/Reader/Dispatch.antt =====
-- What the user of tsf/sdk_cpp/RobotiqTactileSensor.cpp sees of the packets that the reader handles.
use tactile_sensors.Base.{
  ℕ, length, Bool-cases, List, [], arith, false, inl, inr, length-append, ltb, ltb→lt, refl, ◌++◌,
  ◌==◌, ◌∷◌, ◌≡◌, ◌≤◌,
}
use tactile_sensors.Tactile.Framing.{Packet}
use tactile_sensors.Tactile.Sensors.{Fingers}
use tactile_sensors.Tactile.Sensors.Packets.{AreFingers}
use tactile_sensors.Tactile.Sensors.Bounds.{parse_sensors-ends, same_sizes}
use tactile_sensors.Tactile.Reader.{
  Reader, any_new, clear_flags, parsed, add_sample, dispatch, handle, sample_count, get_version,
  is_sensor_command,
}

unfoldable pub AllFingers : List Fingers → Type 0
AllFingers [] = Unit
AllFingers (fs ∷ more) = AreFingers fs × AllFingers more

-- Between two packets no flag is set, the arrays have their sizes, and there are no more samples
-- than `findBaseline` waits for, each with arrays of the right sizes.
pub record IsReader (r : Reader) : Type 0 where
  pub quiet : any_new r.fingers ≡ false
  pub sizes : AreFingers r.fingers
  pub bounded : length r.samples ≤ sample_count
  pub sampled : AllFingers r.samples

AllFingers-append :
    (samples : List Fingers) (fs : Fingers)
    → AllFingers samples
    → AreFingers fs
    → AllFingers (samples ++ (fs ∷ []))
unfolding AllFingers
AllFingers-append [] fs h fine = (fine, tt)
AllFingers-append (s ∷ samples) fs h fine = (h.0, AllFingers-append samples fs h.1 fine)

parsed-AreFingers : (bytes : List ℕ) (fs : Fingers) → AreFingers fs → AreFingers (parsed bytes fs)
unfolding parsed
parsed-AreFingers bytes fs h =
    let (fs', e, fine) = parse_sensors-ends bytes fs h in rw (parsed, e) fine

add_sample-bounded :
    (samples : List Fingers) (fs : Fingers)
    → length samples ≤ sample_count
    → length (add_sample samples fs) ≤ sample_count
unfolding add_sample
add_sample-bounded samples fs h = elim (Bool-cases (ltb (length samples) sample_count)) [
  | inl e ↦
      rw e (omega (arith, length-append samples (fs ∷ []), ltb→lt (length samples) sample_count e))
  | inr e ↦ rw e h
]

add_sample-AllFingers :
    (samples : List Fingers) (fs : Fingers)
    → AllFingers samples
    → AreFingers fs
    → AllFingers (add_sample samples fs)
unfolding add_sample
add_sample-AllFingers samples fs h fine = elim (Bool-cases (ltb (length samples) sample_count)) [
  | inl e ↦ rw e (AllFingers-append samples fs h fine)
  | inr e ↦ rw e h
]

pub stamped-AreFingers :
    (fs : Fingers) (now : ℕ) → AreFingers fs → AreFingers (record fs { timestamp = now })
stamped-AreFingers fs now h = record { first = h.first; second = h.second }

pub clear_flags-AreFingers : (fs : Fingers) → AreFingers fs → AreFingers (clear_flags fs)
unfolding clear_flags
clear_flags-AreFingers fs h = record {
  first = same_sizes h.first refl refl refl refl;
  second = same_sizes h.second refl refl refl refl;
}

any_new-clear_flags : (fs : Fingers) → any_new (clear_flags fs) ≡ false
unfolding any_new clear_flags
any_new-clear_flags fs = refl

dispatch-IsReader :
    (now : ℕ) (fs : Fingers) (r : Reader)
    → IsReader r
    → AreFingers fs
    → IsReader (dispatch now fs r).0
unfolding dispatch
dispatch-IsReader now fs r h fine =
    let stamped = record fs { timestamp = now } in
    let stamped_fine = stamped-AreFingers fs now fine in
    let kept = record r { fingers = clear_flags stamped } in
    let still : IsReader kept = record {
      quiet = any_new-clear_flags stamped;
      sizes = clear_flags-AreFingers stamped stamped_fine;
      bounded = h.bounded;
      sampled = h.sampled;
    } in
    elim (Bool-cases (any_new fs)) [
      | inr e ↦ rw e (record { quiet = e; sizes = fine; bounded = h.bounded; sampled = h.sampled })
      | inl e ↦ elim (Bool-cases r.calculating_baseline) [
        | inl c ↦
            rw (e, c)
              (record {
                quiet = still.quiet;
                sizes = still.sizes;
                bounded = add_sample-bounded r.samples stamped h.bounded;
                sampled = add_sample-AllFingers r.samples stamped h.sampled stamped_fine;
              })
        | inr c ↦ elim (Bool-cases r.has_callback) [
          | inl b ↦
              rw (e, c, b)
                (record {
                  quiet = still.quiet;
                  sizes = still.sizes;
                  bounded = h.bounded;
                  sampled = h.sampled;
                })
          | inr b ↦
              rw (e, c, b)
                (record {
                  quiet = still.quiet;
                  sizes = still.sizes;
                  bounded = h.bounded;
                  sampled = h.sampled;
                })
        ]
      ]
    ]

-- Every packet, whatever its command and bytes, keeps the reader well formed: no data is marked as
-- new between packets, the fingers keep their sizes, also in the samples, and the samples are no
-- more than the baseline's sample count.
pub handle-IsReader : (now : ℕ) (p : Packet) (r : Reader) → IsReader r → IsReader (handle now p r).0
unfolding handle
handle-IsReader now p r h = elim (Bool-cases (p.code == get_version)) [
  | inl e ↦
      rw e (record { quiet = h.quiet; sizes = h.sizes; bounded = h.bounded; sampled = h.sampled })
  | inr e ↦ elim (Bool-cases (is_sensor_command p.code)) [
    | inl s ↦
        rw (e, s)
          (dispatch-IsReader now (parsed p.payload r.fingers) r h
            (parsed-AreFingers p.payload r.fingers h.sizes))
    | inr s ↦ rw (e, s) h
  ]
]
