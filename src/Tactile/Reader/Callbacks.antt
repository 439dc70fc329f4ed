-- ===== src/Tactile/Reader/Callbacks.antt =====
-- The calls of the user's callback by the reader of tsf/sdk_cpp/RobotiqTactileSensor.cpp, for packets
-- whose sensor data are all there.
use tactile_sensors.Base.{
  ℕ, Bool, List, [], arith, false, refl, suc, true, zero, ◌==◌, ◌||◌, ◌∷◌, ◌≡◌, ap, map,
}
use tactile_sensors.Tactile.Sensors.RoundTrip.{parse_sensors-encoded}
use tactile_sensors.Tactile.Reader.Dispatch.{clear_flags-AreFingers, stamped-AreFingers}
use tactile_sensors.Tactile.Framing.{Packet}
use tactile_sensors.Tactile.Sensors.{Fingers, FingerData}
use tactile_sensors.Tactile.Sensors.Parse.{
  Reading, with_reading, acceleration, clock, dynamic_taxel, heat, rotation, static_taxels,
}
use tactile_sensors.Tactile.Sensors.Packets.{
  with_blocks-AreFingers, AreFingers, Block, AreBlocks, encoded, with_block, with_blocks, reading,
  foreign,
}
use tactile_sensors.Tactile.Reader.{
  Reader, any_new, clear_flags, parsed, dispatch, handle, get_version, is_sensor_command,
  handle_all,
}

-- Some block is a reading.
unfoldable pub HasReading : List Block → Type 0
HasReading [] = ⊥
HasReading (reading f part r ∷ bs) = Unit
HasReading (foreign b ∷ bs) = HasReading bs

with_reading-new : (d : FingerData) (r : Reading) → (with_reading d r).new_data_available ≡ true
unfolding with_reading
with_reading-new d (static_taxels vs) = refl
with_reading-new d (dynamic_taxel vs) = refl
with_reading-new d (acceleration vs) = refl
with_reading-new d (rotation vs) = refl
with_reading-new d (heat vs) = refl
with_reading-new d (clock v) = refl

or-true : (b : Bool) → (b || true) ≡ true
or-true true = refl
or-true false = refl

any_new-reading :
    (fs : Fingers) (f part : ℕ) (r : Reading) → any_new (with_block fs (reading f part r)) ≡ true
unfolding any_new with_block
any_new-reading fs zero part r = rw (with_reading-new fs.finger0 r) refl
any_new-reading fs (suc f) part r =
    rw (with_reading-new fs.finger1 r) (or-true fs.finger0.new_data_available)

any_new-with_blocks_still :
    (fs : Fingers) (bs : List Block) → any_new fs ≡ true → any_new (with_blocks fs bs) ≡ true
unfolding with_blocks with_block
any_new-with_blocks_still fs [] h = h
any_new-with_blocks_still fs (reading f part r ∷ bs) h =
    any_new-with_blocks_still (with_block fs (reading f part r)) bs (any_new-reading fs f part r)
any_new-with_blocks_still fs (foreign b ∷ bs) h = any_new-with_blocks_still fs bs h

any_new-with_blocks :
    (fs : Fingers) (bs : List Block) → HasReading bs → any_new (with_blocks fs bs) ≡ true
unfolding HasReading with_blocks with_block
any_new-with_blocks fs [] h = absurd h
any_new-with_blocks fs (reading f part r ∷ bs) h =
    any_new-with_blocks_still (with_block fs (reading f part r)) bs (any_new-reading fs f part r)
any_new-with_blocks fs (foreign b ∷ bs) h = any_new-with_blocks fs bs h

-- A packet of sensor data with the time at which it is complete.
pub record Delivery : Type 0 where
  pub time : ℕ
  pub code : ℕ
  pub blocks : List Block

unfoldable pub delivered : Delivery → ℕ × Packet
unfolding encoded
delivered d = (d.time, record { code = d.code; payload = encoded d.blocks })

-- The deliveries carry sensor data, all of them there, and at least one reading each.
unfoldable pub AreDeliveries : List Delivery → Type 0
unfolding HasReading AreBlocks
AreDeliveries [] = Unit
AreDeliveries (d ∷ ds) =
    (is_sensor_command d.code ≡ true) × AreBlocks d.blocks × HasReading d.blocks × AreDeliveries ds

-- The data that the callback is to see, with the fingers before the first delivery.
unfoldable pub reports : Fingers → List Delivery → List Fingers
unfolding with_blocks clear_flags
reports fs [] = []
reports fs (d ∷ ds) =
    let seen = record (with_blocks fs d.blocks) { timestamp = d.time } in
    seen ∷ reports (clear_flags seen) ds

-- The reader calls the callback.
pub record Listens (r : Reader) : Type 0 where
  pub listening : r.has_callback ≡ true
  pub not_calculating : r.calculating_baseline ≡ false

not_version : (c : ℕ) → is_sensor_command c ≡ true → (c == get_version) ≡ false
unfolding is_sensor_command
not_version c h = ground arith

dispatch-calls :
    (now : ℕ) (fs : Fingers) (r : Reader)
    → any_new fs ≡ true
    → Listens r
    → dispatch now fs r ≡ (
      record r { fingers = clear_flags (record fs { timestamp = now }) },
      record fs { timestamp = now } ∷ [],
    )
unfolding dispatch
dispatch-calls now fs r h l = rw (h, l.not_calculating, l.listening) refl

handle-encoded :
    (d : Delivery) (r : Reader)
    → is_sensor_command d.code ≡ true
    → AreBlocks d.blocks
    → HasReading d.blocks
    → AreFingers r.fingers
    → Listens r
    → handle (delivered d).0 (delivered d).1 r ≡ (
      record r {
        fingers = clear_flags (record (with_blocks r.fingers d.blocks) { timestamp = d.time });
      },
      record (with_blocks r.fingers d.blocks) { timestamp = d.time } ∷ [],
    )
unfolding handle delivered parsed
handle-encoded d r sensor blocks has fine l =
    rw
      (
        not_version d.code sensor,
        sensor,
        parsed,
        parse_sensors-encoded d.blocks r.fingers blocks fine,
      )
      (dispatch-calls d.time (with_blocks r.fingers d.blocks) r
        (any_new-with_blocks r.fingers d.blocks has) l)

-- The packets of readings that a listening reader handles are reported in order, one call of the
-- callback for each packet: it sees the readings of the packet, in the fingers as the packets before
-- left them, with the time of the packet, and no flag of an earlier packet.
pub handle_all-reports :
    (ds : List Delivery) (r : Reader)
    → AreDeliveries ds
    → AreFingers r.fingers
    → Listens r
    → (handle_all (map delivered ds) r).1 ≡ reports r.fingers ds
unfolding AreDeliveries handle_all reports
handle_all-reports [] r v fine l = refl
handle_all-reports (d ∷ ds) r v fine l =
    let seen = record (with_blocks r.fingers d.blocks) { timestamp = d.time } in
    let next = record r { fingers = clear_flags seen } in
    let seen_fine = with_blocks-AreFingers r.fingers d.blocks fine v.1 in
    rw (handle-encoded d r v.0 v.1 v.2 fine l) (
      ap (◌∷◌ seen) (
        handle_all-reports ds next v.3
          (clear_flags-AreFingers seen
            (stamped-AreFingers (with_blocks r.fingers d.blocks) d.time seen_fine))
          (record { listening = l.listening; not_calculating = l.not_calculating })))
