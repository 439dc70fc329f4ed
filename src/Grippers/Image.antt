-- ===== src/Grippers/Image.antt =====
-- The process image: src/process_image.hpp and src/process_image.cpp, with the records of
-- include/Robotiq/gripper/stamped_exchange.hpp. Every method runs under the image's lock, so it is
-- one step here; a wait on the condition variable lets go of the lock, and a `Wake` says what the
-- other threads did meanwhile and what the clock reads afterwards. That a notification ends such a wait
-- is not said here: Grippers/Platform.antt has the condition variables. Time is in nanoseconds.
pub mod Sync
use tactile_sensors.Base.{
  ℕ, Bool, List, [], false, if◌then◌else◌, leb, ltb, not, true, ◌%◌, ◌&&◌, ◌+◌, ◌^◌, ◌∷◌,
}
use tactile_sensors.Grippers.Blocks.{GripperCommand, GripperStatus, empty_command, empty_status}

pub record ExchangeMetadata : Type 0 where
  pub exchange_count : ℕ
  pub timestamp : ℕ

pub record StampedExchange : Type 0 where
  pub metadata : ExchangeMetadata
  pub command : GripperCommand
  pub status : GripperStatus

abbrev pub count_of : StampedExchange → ℕ
count_of e = e.metadata.exchange_count

pub record ProcessImage : Type 0 where
  pub command : GripperCommand
  pub stamped : StampedExchange
  pub closed : Bool

abbrev pub new_image : ProcessImage
new_image = record {
  command = empty_command;
  stamped = record {
    metadata = record { exchange_count = 0; timestamp = 0 };
    command = empty_command;
    status = empty_status;
  };
  closed = false;
}

unfoldable pub seed : ProcessImage → GripperStatus → ℕ → GripperCommand → ProcessImage
seed image s at c = record image {
  stamped = record {
    metadata = record { exchange_count = 0; timestamp = at };
    command = c;
    status = s;
  };
  command = c;
}

abbrev pub command_of : ProcessImage → GripperCommand
command_of image = image.command

abbrev pub status_of : ProcessImage → GripperStatus
status_of image = image.stamped.status

abbrev pub stamped_exchange : ProcessImage → StampedExchange
stamped_exchange image = image.stamped

unfoldable pub set_command : ProcessImage → GripperCommand → ProcessImage
set_command image c = record image { command = c }

-- The part under the lock; the notification of the waiting threads that follows it is the
-- platform's. The count is a uint64_t.
unfoldable pub publish : ProcessImage → GripperCommand → GripperStatus → ℕ → ProcessImage
publish image c s completed_at = record image {
  stamped = record {
    metadata = record {
      exchange_count = (count_of image.stamped + 1) % 2 ^ 64;
      timestamp = completed_at;
    };
    command = c;
    status = s;
  };
}

-- Likewise.
unfoldable pub close : ProcessImage → ProcessImage
close image = record image { closed = true }

-- What other threads call.
pub data Call : Type 0 where
  sets : GripperCommand → Call
  publishes : GripperCommand → GripperStatus → ℕ → Call
  closes : Call

unfoldable pub called : ProcessImage → Call → ProcessImage
unfolding set_command publish close
called image (sets c) = set_command image c
called image (publishes c s at) = publish image c s at
called image closes = close image

unfoldable pub calls : ProcessImage → List Call → ProcessImage
unfolding called
calls image [] = image
calls image (c ∷ cs) = calls (called image c) cs

pub record Wake : Type 0 where
  pub meanwhile : List Call
  pub clock : ℕ

-- Where a waiting thread stands: the image, the clock, and the waits to come.
pub record World : Type 0 where
  pub image : ProcessImage
  pub now : ℕ
  pub wakes : List Wake

-- A blocked call either returns, or still waits when the given waits are used up, with the image and
-- the clock as they are by then.
pub data Blocked (A : Type 0) : Type 0 where
  waiting : World → Blocked A
  returned : A → World → Blocked A

-- The test of the loop in `sync`: go on waiting.
unfoldable pub keeps_waiting : ProcessImage → ℕ → ℕ → ℕ → Bool
keeps_waiting image count deadline now =
    leb (count_of image.stamped) count && not image.closed && ltb now deadline

unfoldable pub sync_from : ProcessImage → ℕ → List Wake → ℕ → ℕ → Blocked StampedExchange
sync_from image now [] count deadline =
    if keeps_waiting image count deadline now
    then waiting (record { image = image; now = now; wakes = [] })
    else returned image.stamped (record { image = image; now = now; wakes = [] })
sync_from image now (w ∷ ws) count deadline =
    let rest = sync_from (calls image w.meanwhile) w.clock ws count deadline in
    if keeps_waiting image count deadline now
    then rest
    else returned image.stamped (record { image = image; now = now; wakes = w ∷ ws })

unfoldable pub sync : World → ℕ → ℕ → Blocked StampedExchange
unfolding sync_from
sync w count deadline = sync_from w.image w.now w.wakes count deadline
