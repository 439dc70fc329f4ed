-- ===== src/Grippers/Moves/Outcomes.antt =====
-- How a move of examples/gripper_events.cpp ends.
use tactile_sensors.Base.{
  Bool, List, Option, [], false, if◌then◌else◌, none, not, refl, some, true, ◌++◌, ◌∷◌, ◌≡◌, ℕ, sym,
  arith, subst, ap,
}
use tactile_sensors.Grippers.Activation.Ends.{
  Ends, Found, Found-IsSteady, Waited-Ends, after-Ends, wait_for-Ends,
}
use tactile_sensors.Grippers.Blocks.{GripperCommand, moving, same_command}
use tactile_sensors.Grippers.Image.{Call, Blocked, StampedExchange, World}
use tactile_sensors.Grippers.Log.{Level, debug, error, info}
use tactile_sensors.Grippers.Moves.{
  Move, carried, commanded, ended, move_to, reached, send, send_to, settled, started,
}
use tactile_sensors.Grippers.Units.{
  Double, DeviceProfile, opening_from_register, opening_to_register,
}
use tactile_sensors.Grippers.Wait.{
  detects, set_command_and_wait_for_exchange, wait_for_motion_end, wait_for_object_detection,
}
use tactile_sensors.Grippers.Wait.Counts.{overtaken, IsSteady}
use tactile_sensors.Grippers.Wait.Outcome.{set_command_and_wait_for_exchange-Waited}

-- The log ends with a line that tells the result.
pub Reports : Bool → List Level → Type 0
Reports ok log = (front : List Level) × (log ≡ front ++ (if ok then info else error) ∷ [])

module _ (d : Double) (profile : DeviceProfile d) where
  -- The fingers have stopped, at a position that has an opening.
  pub HasStopped : World → Type 0
  HasStopped v =
      (detects moving v.image.stamped ≡ false)
      × ((opening : d.W) × (opening_from_register d v.image.stamped.status.position profile
            ≡ some opening))

  pub Stops : Bool → World → Type 0
  unfolding HasStopped
  Stops true v = HasStopped v
  Stops false v = Unit

  -- The end of a move that has a register.
  pub Sent : GripperCommand → Move → World → Type 0
  Sent c m v = (m.command ≡ c) × Reports m.ok m.log × Stops m.ok v × IsSteady v

  reached-Sent :
      (c : GripperCommand) (log : List Level) (o : Option d.W) (v : World)
      → detects moving v.image.stamped ≡ false
      → opening_from_register d v.image.stamped.status.position profile ≡ o
      → IsSteady v
      → Ends (Sent c) (reached d c log o v)
  unfolding reached Ends Sent Reports Stops HasStopped
  reached-Sent c log none v still q s = (refl, (log, refl), tt, s)
  reached-Sent c log (some opening) v still q s = (refl, (log, refl), (still, (opening, q)), s)

  settled-Sent :
      (c : GripperCommand) (log : List Level) (o : Option StampedExchange) (v : World)
      → Found (λ e. not (detects moving e)) o v
      → Ends (Sent c) (settled d profile c log o v)
  unfolding settled Ends Sent Reports Stops
  settled-Sent c log none v f = (refl, (log, refl), tt, f)
  settled-Sent c log (some e) v f =
      reached-Sent c log (opening_from_register d e.status.position profile) v
        (subst (λ x. detects moving x ≡ false) f.1 (ground arith))
        (ap (λ (x : StampedExchange). opening_from_register d x.status.position profile) (sym f.1))
        f.2

  started-Sent :
      (c : GripperCommand) (o : Option StampedExchange) (v : World)
      → IsSteady v
      → Ends (Sent c) (started d profile c o v)
  unfolding started wait_for_motion_end
  started-Sent c none v s =
      after-Ends (Found (λ e. not (detects moving e))) (Sent c) (wait_for_motion_end v 5000) _
        (wait_for-Ends v (λ e. not (detects moving e)) 5000 s)
        (λ o u f. settled-Sent c (debug ∷ debug ∷ []) o u f)
  started-Sent c (some e) v s =
      after-Ends (Found (λ e. not (detects moving e))) (Sent c) (wait_for_motion_end v 5000) _
        (wait_for-Ends v (λ e. not (detects moving e)) 5000 s)
        (λ o u f. settled-Sent c (debug ∷ []) o u f)

  carried-Sent :
      (c : GripperCommand) (o : Option StampedExchange) (v : World)
      → IsSteady v
      → Ends (Sent c) (carried d profile c o v)
  unfolding carried wait_for_object_detection Ends Sent Reports Stops
  carried-Sent c none v s = (refl, (debug ∷ [], refl), tt, s)
  carried-Sent c (some e) v s =
      after-Ends (Found (detects moving)) (Sent c) (wait_for_object_detection v moving 200) _
        (wait_for-Ends v (detects moving) 200 s)
        (λ o u f. started-Sent c o u (Found-IsSteady (detects moving) o u f))

  send-Sent :
      (c : GripperCommand) (between : List Call) (w : World)
      → IsSteady (overtaken w between)
      → Ends (Sent c) (send d profile c between w)
  unfolding send
  send-Sent c between w s =
      after-Ends (Found (λ e. same_command e.command c)) (Sent c)
        (set_command_and_wait_for_exchange w between c 1000) _
        (Waited-Ends (λ e. same_command e.command c) _ _ _
          (set_command_and_wait_for_exchange-Waited w between c 1000 s))
        (λ o v f. carried-Sent c o v (Found-IsSteady (λ e. same_command e.command c) o v f))

  -- What a move leads to, by the register of the opening.
  pub MovedTo : Option ℕ → GripperCommand → World → Option (Blocked Move) → Type 0
  unfolding Sent
  MovedTo none c w r = r ≡ ended false c (error ∷ []) w
  MovedTo (some position) c w r = Ends (Sent (commanded c position)) r

  send_to-MovedTo :
      (position : Option ℕ) (c : GripperCommand) (between : List Call) (w : World)
      → IsSteady (overtaken w between)
      → MovedTo position c w (send_to d profile position c between w)
  unfolding send_to MovedTo
  send_to-MovedTo none c between w s = refl
  send_to-MovedTo (some position) c between w s = send-Sent (commanded c position) between w s

  -- A move to an opening that has no register fails at once and commands nothing. With one, it does not
  -- run out of fuel, as long as fewer than 2^64 exchanges complete and the clock does not run
  -- backwards, whatever other threads do until the command is set; it hands its caller the command with that position and rGTO set, and logs its result
  -- last. It only reports success when the newest status shows fingers that have stopped, at a position
  -- that has an opening.
  pub move_to-MovedTo :
      (opening : d.W) (c : GripperCommand) (between : List Call) (w : World)
      → IsSteady (overtaken w between)
      → MovedTo (opening_to_register d opening profile) c w (move_to d profile opening c between w)
  unfolding move_to
  move_to-MovedTo opening c between w s =
      send_to-MovedTo (opening_to_register d opening profile) c between w s
