-- ===== src/Grippers/Platform.antt =====
-- The two platforms of the gripper driver: src/hosted/std_platform.cpp and
-- ports/threadx/threadx_platform.hpp. A condition variable is modelled with the threads that use it.
mod Tests
pub mod ThreadX
pub mod Std
