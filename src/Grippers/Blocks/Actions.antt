-- ===== src/Grippers/Blocks/Actions.antt =====
-- The action byte (include/Robotiq/detail/named_bit_array.hpp): its flags are independent.
use tactile_sensors.Base.{
  ℕ, ◌≡◌, Bool, true, false, ◌&&◌, if◌then◌else◌, ◌==◌, same, ltb, &&-eq_true, arith, ltb→lt, refl,
  same→eq, ◌<◌,
}
use tactile_sensors.Base.Bits.{every_below, every_below_sound}
use tactile_sensors.Grippers.Blocks.{
  ActionRequestBit, activate, go_to, auto_release, auto_release_open_direction, position, get,
  set_to,
}

abbrev every_bit : (ActionRequestBit → Bool) → Bool
every_bit p = p activate && p go_to && p auto_release && p auto_release_open_direction

every_bit_sound :
    (p : ActionRequestBit → Bool) → every_bit p ≡ true → (b : ActionRequestBit) → p b ≡ true
every_bit_sound p h activate = ground arith
every_bit_sound p h go_to = ground arith
every_bit_sound p h auto_release = ground arith
every_bit_sound p h auto_release_open_direction = ground arith

-- One read after one write agrees, at one value of the byte.
abbrev reads_back : ℕ → ActionRequestBit → ActionRequestBit → Bool → Bool
reads_back v b c on =
    same (get (set_to v b on) c) (if position b == position c then on else get v c)
    && ltb (set_to v b on) 256

abbrev reads_back_always : ℕ → Bool
reads_back_always v = every_bit λ b. every_bit λ c. reads_back v b c true && reads_back v b c false

reads_back_table : every_below 256 reads_back_always ≡ true
unfolding every_below get set_to
reads_back_table = refl

reads_back-true :
    (v : ℕ) (b c : ActionRequestBit) (on : Bool) → v < 256 → reads_back v b c on ≡ true
reads_back-true v b c on h = pick on
  where
    both : (reads_back v b c true && reads_back v b c false) ≡ true
    both =
        every_bit_sound (λ c. reads_back v b c true && reads_back v b c false)
          (every_bit_sound (λ b. every_bit λ c. reads_back v b c true && reads_back v b c false)
            (every_below_sound 256 reads_back_always v reads_back_table h) b)
          c

    pick : (x : Bool) → reads_back v b c x ≡ true
    pick true = (&&-eq_true (reads_back v b c true) (reads_back v b c false) both).0
    pick false = (&&-eq_true (reads_back v b c true) (reads_back v b c false) both).1

-- After a write of one action bit, that bit reads as written, every other bit reads as before, and
-- the value is still a byte.
pub get-set_to :
    (v : ℕ) (b c : ActionRequestBit) (on : Bool)
    → v < 256
    → (get (set_to v b on) c ≡ (if position b == position c then on else get v c))
      × (set_to v b on < 256)
get-set_to v b c on h =
    let parts = &&-eq_true _ _ (reads_back-true v b c on h) in
    (same→eq _ _ parts.0, ltb→lt _ _ parts.1)
