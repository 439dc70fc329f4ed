-- ===== src/Grippers/Activation/Exchanges.antt =====
-- The exchanges of a handshake of src/gripper.cpp with the fake device of src/fake/register_model.cpp,
-- and the steps that the handshake takes with them.
use tactile_sensors.Base.{
  List, [], arith, false, not, refl, some, sym, true, ◌+◌, ◌<◌, ◌^◌, ◌∷◌, ◌∙◌, ◌≡◌, ℕ,
}
use tactile_sensors.Grippers.Activation.{
  activate_command, after, completion, deactivate_command, finished, is_complete, rising_edge,
  run_activation_handshake, wait_for_activation_complete, with_command,
}
use tactile_sensors.Grippers.Blocks.{GripperCommand, activated}
use tactile_sensors.Grippers.FakeGripper.{RegisterModel}
use tactile_sensors.Grippers.FakeGripper.Protocol.{
  IsCommand, IsTracked, reply, reply-fault, reply-sent, sent, write-IsTracked,
}
use tactile_sensors.Grippers.Image.{
  ProcessImage, Wake, World, count_of, publish, returned, set_command, waiting,
}
use tactile_sensors.Grippers.Activation.NextExchange.{
  exchanged, wait_for_status-blocked, wait_for_status-next,
}
use tactile_sensors.Grippers.Activation.Answers.{
  activate_command-IsCommand, activate_command-action, answered_bit, answered_complete,
  deactivate_command-IsCommand, deactivate_command-action,
}

-- A gripper and its device before three exchanges: the one that shows that the link is alive, and the
-- two of the handshake.
pub record Handshake : Type 0 where
  pub image : ProcessImage
  pub device : RegisterModel
  pub deadline : ℕ
  pub t1 : ℕ
  pub t2 : ℕ
  pub t3 : ℕ
  pub open_image : image.closed ≡ false
  pub small : count_of image.stamped + 4 < 2 ^ 64
  pub tracked : IsTracked device
  pub is_command : IsCommand image.command
  pub second : t1 < deadline
  pub third : t2 < deadline

module _ (x : Handshake) where
  abbrev pub previous : GripperCommand
  previous = x.image.command

  abbrev pub deactivated : GripperCommand
  deactivated = deactivate_command previous

  abbrev pub reactivated : GripperCommand
  reactivated = activate_command previous

  abbrev pub m1 : RegisterModel
  m1 = sent x.device previous

  abbrev pub m2 : RegisterModel
  m2 = sent m1 deactivated

  abbrev pub m3 : RegisterModel
  m3 = sent m2 reactivated

  abbrev pub image1 : ProcessImage
  image1 = publish x.image previous (reply m1) x.t1

  abbrev pub image2 : ProcessImage
  image2 = publish (set_command image1 deactivated) deactivated (reply m2) x.t2

  abbrev pub image3 : ProcessImage
  image3 = publish (set_command image2 reactivated) reactivated (reply m3) x.t3

  pub m1-IsTracked : IsTracked m1
  m1-IsTracked = write-IsTracked x.device _ _ _ x.tracked

  pub m2-IsTracked : IsTracked m2
  m2-IsTracked = write-IsTracked m1 _ _ _ m1-IsTracked

  pub second_answer : not (activated (reply m2).gripper_status) ≡ true
  second_answer =
      rw
        (
          answered_bit m1 deactivated (reply m2) (
              reply-sent m1 deactivated m1-IsTracked
                (deactivate_command-IsCommand previous x.is_command)),
          (deactivate_command-action previous x.is_command).0,
        )
        refl

  pub third_answer : is_complete (reply m3) ≡ true
  third_answer =
      answered_complete m2 reactivated _
        (reply-sent m2 reactivated m2-IsTracked (activate_command-IsCommand previous x.is_command))
        (activate_command-action previous x.is_command).0

  abbrev pub lowered : List Wake → World
  lowered ks = record { image = set_command image1 deactivated; now = x.t1; wakes = ks }

  abbrev pub raised : List Wake → World
  raised ks = record { image = set_command image2 reactivated; now = x.t2; wakes = ks }

  abbrev pub ended : World
  ended = record { image = image3; now = x.t3; wakes = [] }

  pub completion-next :
      wait_for_activation_complete (raised (exchanged reactivated (reply m3) x.t3 ∷ [])) x.deadline
      ≡ some (returned finished ended)
  unfolding wait_for_activation_complete after completion publish set_command
  completion-next =
      rw
        (wait_for_status-next (set_command image2 reactivated) x.t2 x.t3 reactivated (reply m3) []
          x.open_image (omega (arith, x.small)) is_complete x.deadline x.third third_answer)
        refl

  pub completion-blocked :
      wait_for_activation_complete (raised []) x.deadline ≡ some (waiting (raised []))
  unfolding wait_for_activation_complete after publish set_command
  completion-blocked =
      rw
        (wait_for_status-blocked (set_command image2 reactivated) x.t2 x.t3 reactivated (reply m3)
          [] x.open_image (omega (arith, x.small)) is_complete x.deadline x.third)
        refl

  pub handshake-next :
      (ks : List Wake)
      → run_activation_handshake
          (record {
            image = image1;
            now = x.t1;
            wakes = exchanged deactivated (reply m2) x.t2 ∷ ks;
          })
          x.deadline
        ≡ wait_for_activation_complete (raised ks) x.deadline
  unfolding run_activation_handshake rising_edge after with_command set_command publish
  handshake-next ks =
      rw
        (wait_for_status-next (set_command image1 deactivated) x.t1 x.t2 deactivated (reply m2) ks
          x.open_image (omega (arith, x.small)) (λ s. not (activated s.gripper_status)) x.deadline
          x.second second_answer)
        refl

  pub handshake-blocked :
      run_activation_handshake (record { image = image1; now = x.t1; wakes = [] }) x.deadline
      ≡ some (waiting (lowered []))
  unfolding run_activation_handshake after with_command set_command publish
  handshake-blocked =
      rw
        (wait_for_status-blocked (set_command image1 deactivated) x.t1 x.t2 deactivated (reply m2)
          [] x.open_image (omega (arith, x.small)) (λ s. not (activated s.gripper_status))
          x.deadline x.second)
        refl

  -- Clearing rACT clears a fault, and setting it again brings none back.
  pub cleared : (reply m3).fault_status ≡ 0
  cleared =
      let fell =
        reply-sent m1 deactivated m1-IsTracked
          (deactivate_command-IsCommand previous x.is_command) in
      let rose =
        reply-sent m2 reactivated m2-IsTracked (activate_command-IsCommand previous x.is_command) in
      let none_left : (reply m2).fault_status ≡ 0 =
        fell.fault ∙ rw (deactivate_command-action previous x.is_command).0 refl in
      rose.fault
      ∙ rw (activate_command-action previous x.is_command).0 (sym (reply-fault m2) ∙ none_left)
