-- ===== src/Tactile.antt =====
-- The tactile sensor driver, tsf/sdk_cpp: the sample buffer, the framing of the USB link, the sensor
-- data in a packet, and the reader thread with the calls that share its state.
mod Tests
pub mod Ring
pub mod Framing
pub mod Sensors
pub mod Reader
pub mod Baseline
pub mod Lifecycle
pub mod Version
pub mod Port
pub mod Thread
