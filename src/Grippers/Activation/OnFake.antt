-- ===== src/Grippers/Activation/OnFake.antt =====
-- `activate` and `recoverFromFault` of src/gripper.cpp on the fake device of
-- src/fake/register_model.cpp, with the driver's thread between them.
use tactile_sensors.Base.{
  List, [], Option, arith, false, refl, some, true, ◌*◌, ◌+◌, ◌/◌, ◌<◌, ◌^◌, ◌∷◌, ◌∙◌, ◌≡◌, ◌≤◌, ℕ,
  le→leb,
}
use tactile_sensors.Grippers.Activation.{
  ActivationResult, activate_command, activate_gripper, after, finished,
  is_activation_handshake_allowed, is_complete, judge, recover, recover_from_fault,
  run_activation_handshake, uncapped_deadline, wait_operational,
}
use tactile_sensors.Grippers.Blocks.{activate, get}
use tactile_sensors.Grippers.FakeGripper.{RegisterModel}
use tactile_sensors.Grippers.FakeGripper.Protocol.{IsCommand, IsTracked, reply, reply-sent}
use tactile_sensors.Grippers.Image.{
  Blocked, ProcessImage, Wake, World, count_of, publish, returned, set_command, waiting,
}
use tactile_sensors.Grippers.Wait.{nanoseconds}
use tactile_sensors.Grippers.Activation.WithDevice.{
  IsReady, Procedure, activation, perform, recovery, with_device, with_device-returned,
  with_device-step,
}
use tactile_sensors.Grippers.Activation.NextExchange.{
  exchanged, wait_for_status-blocked, wait_for_status-next,
}
use tactile_sensors.Grippers.Activation.Answers.{not_complete, not_in_progress, not_major}
use tactile_sensors.Grippers.Activation.Exchanges.{
  Handshake, previous, deactivated, reactivated, m1, m2, m3, image1, ended, lowered, raised,
  handshake-next, handshake-blocked, completion-next, completion-blocked, third_answer, cleared,
}

module _ (x : Handshake) where
  -- A procedure that waits for one exchange and then runs the handshake.
  record Opens (now : ℕ) (procedure : World → Option (Blocked ActivationResult)) : Type 0 where
    opens_blocked :
        procedure (record { image = x.image; now = now; wakes = [] })
        ≡ some (waiting (record { image = x.image; now = now; wakes = [] }))
    opens_next :
        (ks : List Wake)
        → procedure (record {
          image = x.image;
          now = now;
          wakes = exchanged (previous x) (reply (m1 x)) x.t1 ∷ ks;
        })
          ≡ run_activation_handshake
              (record { image = image1 x; now = x.t1; wakes = ks })
              x.deadline

  with_device-finished :
      (now : ℕ) (procedure : World → Option (Blocked ActivationResult)) (ts : List ℕ)
      → Opens now procedure
      → with_device procedure x.image now x.device [] (x.t1 ∷ x.t2 ∷ x.t3 ∷ ts)
        ≡ some (returned finished (ended x))
  unfolding publish set_command
  with_device-finished now procedure ts o =
      let k1 = exchanged (previous x) (reply (m1 x)) x.t1 in
      let k2 = exchanged (deactivated x) (reply (m2 x)) x.t2 in
      let k3 = exchanged (reactivated x) (reply (m3 x)) x.t3 in
      with_device-step procedure x.image now x.device [] x.t1 (x.t2 ∷ x.t3 ∷ ts)
        (record { image = x.image; now = now; wakes = [] }) o.opens_blocked
      ∙ with_device-step procedure x.image now (m1 x) (k1 ∷ []) x.t2 (x.t3 ∷ ts) (lowered x [])
          (o.opens_next [] ∙ handshake-blocked x)
      ∙ with_device-step procedure x.image now (m2 x) (k1 ∷ k2 ∷ []) x.t3 ts (raised x [])
          (o.opens_next (k2 ∷ []) ∙ handshake-next x [] ∙ completion-blocked x)
      ∙ with_device-returned procedure x.image now (m3 x) (k1 ∷ k2 ∷ k3 ∷ []) ts finished (ended x)
          (o.opens_next (k2 ∷ k3 ∷ []) ∙ handshake-next x (k3 ∷ []) ∙ completion-next x)

  recover-Opens :
      (now timeout : ℕ)
      → uncapped_deadline now timeout ≡ x.deadline
      → now < x.deadline
      → x.t1 + timeout / 2 * nanoseconds ≤ x.deadline
      → Opens now (λ w. recover_from_fault w timeout)
  unfolding recover_from_fault wait_operational after recover is_activation_handshake_allowed
      publish
  recover-Opens now timeout e early half = record {
    opens_blocked =
        rw
          (
            e,
            wait_for_status-blocked x.image now x.t1 (previous x) (reply (m1 x)) [] x.open_image
                (omega (arith, x.small)) (λ s. true) x.deadline early,
          )
          refl;
    opens_next = λ ks.
        rw
          (
            e,
            wait_for_status-next x.image now x.t1 (previous x) (reply (m1 x)) ks x.open_image
                (omega (arith, x.small)) (λ s. true) x.deadline early refl,
            le→leb (x.t1 + timeout / 2 * nanoseconds) x.deadline half,
          )
          refl;
  }

  activate-Opens :
      (now timeout : ℕ)
      → uncapped_deadline now timeout ≡ x.deadline
      → now < x.deadline
      → x.t1 + timeout / 2 * nanoseconds ≤ x.deadline
      → get (previous x).action activate ≡ false
      → Opens now (λ w. activate_gripper w timeout)
  unfolding activate_gripper wait_operational after judge is_activation_handshake_allowed publish
  activate-Opens now timeout e early half clear =
      let answers = reply-sent x.device (previous x) x.tracked x.is_command in
      record {
        opens_blocked =
            rw
              (
                e,
                wait_for_status-blocked x.image now x.t1 (previous x) (reply (m1 x)) [] x.open_image
                    (omega (arith, x.small)) (λ s. true) x.deadline early,
              )
              refl;
        opens_next = λ ks.
            rw
              (
                e,
                wait_for_status-next x.image now x.t1 (previous x) (reply (m1 x)) ks x.open_image
                    (omega (arith, x.small)) (λ s. true) x.deadline early refl,
                not_major x.device (previous x) (reply (m1 x)) answers clear,
                not_complete x.device (previous x) (reply (m1 x)) answers clear,
                not_in_progress x.device (previous x) (reply (m1 x)) answers clear,
                le→leb (x.t1 + timeout / 2 * nanoseconds) x.deadline half,
              )
              refl;
      }

  perform-Opens :
      (p : Procedure) (now timeout : ℕ)
      → uncapped_deadline now timeout ≡ x.deadline
      → now < x.deadline
      → x.t1 + timeout / 2 * nanoseconds ≤ x.deadline
      → IsReady p (previous x)
      → Opens now (perform p timeout)
  perform-Opens activation now timeout e early half ready =
      activate-Opens now timeout e early half ready
  perform-Opens recovery now timeout e early half ready = recover-Opens now timeout e early half

-- What a procedure is to lead to.
pub record ActivatedBy (image : ProcessImage) (t3 : ℕ) (v : World) : Type 0 where
  pub active : is_complete v.image.stamped.status ≡ true
  pub no_fault : v.image.stamped.status.fault_status ≡ 0
  pub commanded : v.image.command ≡ activate_command image.command
  pub carried : v.image.stamped.command ≡ activate_command image.command
  pub counted : count_of v.image.stamped ≡ count_of image.stamped + 3
  pub time : v.now ≡ t3

uncapped_deadline-exact :
    (now timeout : ℕ)
    → now + timeout * nanoseconds < 2 ^ 63
    → uncapped_deadline now timeout ≡ now + timeout * nanoseconds
unfolding uncapped_deadline
uncapped_deadline-exact now timeout h = ground arith

-- Both procedures activate the fake device, when its replies come in time: `recoverFromFault` whatever
-- rACT is and whatever fault is latched, and `activate` if rACT is clear at first. Each waits for three
-- exchanges with the device, each of which carries the command that the procedure has set by the time
-- it waits. With the first one completed by half of the timeout and the second one before its end, it
-- reports success after the third, which may even come too late; further exchanges make no difference.
-- The newest status then says that the activation is complete and that there is no fault, and it
-- answers the command that is now set, the one before with rACT set and rGTO clear. This holds while
-- the image is open and its count does not wrap around, for a command whose fields are bytes and a
-- device whose edge tracking is right, with a timeout that is not 0 and ends within the clock's range.
pub perform-with_device :
    (p : Procedure) (image : ProcessImage) (m : RegisterModel) (now timeout t1 t2 t3 : ℕ)
    (ts : List ℕ)
    → image.closed ≡ false
    → count_of image.stamped + 4 < 2 ^ 64
    → IsTracked m
    → IsCommand image.command
    → IsReady p image.command
    → now + timeout * nanoseconds < 2 ^ 63
    → t1 + timeout / 2 * nanoseconds ≤ now + timeout * nanoseconds
    → t1 < now + timeout * nanoseconds
    → t2 < now + timeout * nanoseconds
    → 0 < timeout
    → (v : World) × (with_device (perform p timeout) image now m [] (t1 ∷ t2 ∷ t3 ∷ ts)
        ≡ some (returned finished v))
      × ActivatedBy image t3 v
unfolding publish set_command
perform-with_device p image m now timeout t1 t2 t3 ts o small tracked is_command ready range half
      second third long =
    let deadline = now + timeout * nanoseconds in
    let exact = uncapped_deadline-exact now timeout range in
    let early : now < deadline = omega arith in
    let x : Handshake = record {
      image = image;
      device = m;
      deadline = deadline;
      t1 = t1;
      t2 = t2;
      t3 = t3;
      open_image = o;
      small = small;
      tracked = tracked;
      is_command = is_command;
      second = second;
      third = third;
    } in
    (
      ended x,
      with_device-finished x now (perform p timeout) ts
          (perform-Opens x p now timeout exact early half ready),
      record {
        active = third_answer x;
        no_fault = cleared x;
        commanded = refl;
        carried = refl;
        counted = omega arith;
        time = refl;
      },
    )
