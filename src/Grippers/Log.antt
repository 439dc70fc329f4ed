-- ===== src/Grippers/Log.antt =====
-- The lines that the driver hands to its Logger, as data: a level and what the text says. What a
-- sink does with a line is outside the model.
use tactile_sensors.Base.{ℕ}

pub data Level : Type 0 where
  debug info warn error : Level

-- Which text, with the numbers that it shows.
pub data Message : Type 0 where
  refused_read refused_write : ℕ → ℕ → Message
  attempt_failed : ℕ → Message
  link_faulted link_recovered cycle_failed : Message
  excess_bytes : ℕ → ℕ → Message
  read_failed write_failed : Message

pub record Line : Type 0 where
  pub level : Level
  pub message : Message
