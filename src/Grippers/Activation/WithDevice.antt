-- ===== src/Grippers/Activation/WithDevice.antt =====
-- A procedure of src/gripper.cpp beside the driver's thread, which carries each command that the image
-- holds to the device and publishes the reply (`exchangeOnce` of src/gripper_state.cpp). The device
-- is the fake one of src/fake/register_model.cpp.
use tactile_sensors.Base.{List, [], Option, false, none, refl, some, ◌++◌, ◌∷◌, ◌≡◌, ℕ}
use tactile_sensors.Grippers.Activation.{ActivationResult, activate_gripper, recover_from_fault}
use tactile_sensors.Grippers.Blocks.{GripperCommand, activate, get}
use tactile_sensors.Grippers.FakeGripper.{RegisterModel}
use tactile_sensors.Grippers.FakeGripper.Protocol.{reply, sent}
use tactile_sensors.Grippers.Image.{Blocked, ProcessImage, Wake, World, returned, waiting}
use tactile_sensors.Grippers.Activation.NextExchange.{exchanged}

-- What is done about a procedure that waits.
unfoldable pub when_waiting :
    {A : Type 0} → Option (Blocked A) → (World → Option (Blocked A)) → Option (Blocked A)
when_waiting none next = none
when_waiting (some (waiting v)) next = next v
when_waiting (some (returned a v)) next = some (returned a v)

-- A procedure and the driver's thread. Whenever the procedure waits, the driver carries the command
-- that the image holds by then to the device, and publishes the reply at the next of the given times.
unfoldable pub with_device :
    {A : Type 0}
    → (World → Option (Blocked A))
    → ProcessImage
    → ℕ
    → RegisterModel
    → List Wake
    → List ℕ
    → Option (Blocked A)
unfolding when_waiting
with_device procedure image now m past [] =
    procedure (record { image = image; now = now; wakes = past })
with_device procedure image now m past (t ∷ ts) =
    when_waiting (procedure (record { image = image; now = now; wakes = past })) (λ v.
      let m' = sent m v.image.command in
      with_device procedure image now m' (past ++ exchanged v.image.command (reply m') t ∷ []) ts)

module _ {A : Type 0} (procedure : World → Option (Blocked A)) (image : ProcessImage) (now : ℕ)
    (m : RegisterModel) (past : List Wake) where
  abbrev so_far : World
  so_far = record { image = image; now = now; wakes = past }

  pub with_device-returned :
      (ts : List ℕ) (a : A) (v : World)
      → procedure so_far ≡ some (returned a v)
      → with_device procedure image now m past ts ≡ some (returned a v)
  unfolding with_device
  with_device-returned [] a v h = h
  with_device-returned (t ∷ ts) a v h = rw h refl

  pub with_device-step :
      (t : ℕ) (ts : List ℕ) (v : World)
      → procedure so_far ≡ some (waiting v)
      → with_device procedure image now m past (t ∷ ts)
        ≡ with_device procedure image now
            (sent m v.image.command)
            (past ++ exchanged v.image.command (reply (sent m v.image.command)) t ∷ [])
            ts
  unfolding with_device
  with_device-step t ts v h = rw h refl

-- The procedures that run the handshake, and what each asks of the command at first.
pub data Procedure : Type 0 where
  activation recovery : Procedure

abbrev pub perform : Procedure → ℕ → World → Option (Blocked ActivationResult)
perform activation timeout w = activate_gripper w timeout
perform recovery timeout w = recover_from_fault w timeout

abbrev pub IsReady : Procedure → GripperCommand → Type 0
IsReady activation c = get c.action activate ≡ false
IsReady recovery c = Unit
