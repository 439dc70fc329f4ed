-- ===== src/Grippers.antt =====
-- The gripper driver, grippers/sdk_cpp: the blocks on the wire, the fake device, the process image,
-- the link with its exchange thread, and the waits and procedures above them.
mod Tests
pub mod Log
pub mod Blocks
pub mod FakeGripper
pub mod Image
pub mod Link
pub mod Client
pub mod Wait
pub mod Activation
pub mod FakeServer
pub mod Ticks
pub mod Serial
pub mod Platform
pub mod Units
pub mod Printing
pub mod Recorder
pub mod Moves
