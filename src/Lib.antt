-- ===== src/Lib.antt =====
-- The C++ software of Robotiq's adaptive grippers and tactile sensors: the gripper driver under
-- grippers/sdk_cpp and the SDK of the TSF tactile sensor under tsf/sdk_cpp.
--
-- The gripper driver writes a command block and reads a status block, 16 bytes each, over Modbus.
-- A thread exchanges the two blocks in a cycle; the application sets the next command and reads the
-- last record through a process image that both share. A fake device stands in for a gripper.
--
--   Grippers/Blocks.antt     command.hpp, status.hpp and named_bit_array.hpp of include/Robotiq: the
--                            blocks, their bits and readers. Below it: Actions (laws of the bits),
--                            Packing (byte_packing.hpp), Writers (src/fake/status_writer.cpp), Faults
--                            and Controller (fault_status.hpp).
--   Grippers/FakeGripper.antt  src/fake/register_model: the register file and the device. Below it:
--                            Registers (ranges and reads), Status and Protocol (what the driver sees).
--   Grippers/Image.antt      src/process_image: seed, setCommand, publish, close, sync. Below it: Sync.
--   Grippers/Link.antt       src/gripper_state.cpp: exchangeOnce and stop. Below it: Start
--                            (initializeImage), Pacing (the loop of start, throttle.hpp), Health and
--                            Pairing (what exchanges in a row do to the state and to the image).
--   Grippers/Client.antt     src/modbus_client.cpp: readStatus, writeCommand, exchange. Below it:
--                            Callbacks (readSerial, writeSerial), OnFake (the client on the fake device).
--   Grippers/Wait.antt       wait.hpp and src/wait.cpp: deadlineAfter, waitForExchangeAfter, waitFor and the
--                            waits built on it. Below it: Counting, Counts, Outcome (how waits end),
--                            Polling (pollUntil).
--   Grippers/Activation.antt src/gripper.cpp: activate, recoverFromFault and their handshake. Below it:
--                            Sole and Commands (what is left commanded), Returns (fuel), Ends and
--                            Complete (what a result says of the gripper), NextExchange, Answers,
--                            Exchanges, WithDevice and OnFake (both procedures beside the driver's
--                            thread and the fake device), Overflow (deadlines past the clock's range).
--   Grippers/FakeServer.antt src/fake/gripper_server.cpp and gripper_serial.cpp. Below it: Callbacks.
--   Grippers/Ticks.antt      ports/threadx/threadx_ticks.hpp: blockingTicks.
--   Grippers/Serial.antt     src/detail, the serial ports. Below it: Posix (posix/serial_port.cpp: read, write;
--                            its children Draining and Descriptors have drain, open and close, and
--                            Poll, Loop, Reads, Writes, Written and HangUps what the loops do), Win32
--                            (win32/serial_port.cpp) and Default (default_serial.cpp: DefaultSerial).
--   Grippers/Platform.antt   Below it: Std (src/hosted/std_platform.cpp: the condition variable, sleeps) and
--                            ThreadX (ports/threadx/threadx_platform.hpp: the condition variable, as
--                            steps of the threads that use it; its child Tasks has the thread and
--                            the sleeps).
--   Grippers/Units.antt      src/units.cpp, frequency.hpp, exchange_period.hpp, device_profile.hpp. Below
--                            it: Ieee (laws of double), Clamp, Spans and Periods.
--   Grippers/Printing.antt   src/to_string.cpp, to_string.hpp. Below it: Words, Plain and Fields.
--   Grippers/Moves.antt      examples/gripper_events.cpp: activateOrRecover, moveTo; setSpeed of
--                            examples/exchange_log.cpp. Below it: Outcomes, Activated.
--   Grippers/Recorder.antt   examples/exchange_log.cpp: the Recorder. Below it: Csv (its rows), Rows
--                            and Counting (its counters), Columns (rows and header).
--   Grippers/Log.antt        what is logged: a level and the kind of message, without its text.
--
-- The tactile SDK receives packets over USB on a thread, parses the sensor data and calls the user.
--
--   Tactile/Ring.antt        circular_buffer.h: SafeCircularBuffer. Below it: Queue, Reads.
--   Tactile/Framing.antt     RobotiqTactileSensor.cpp: UsbPacket, usbSend, usbReadByte. Below it:
--                            Receive (each byte), Frame (one packet), Stream (packets in a row),
--                            RoundTrip (what usbSend sends).
--   Tactile/Sensors.antt     parseSensors and finger_data.h. Below it: Words and Extract (numbers and
--                            arrays), Parse (one reading), Packets and RoundTrip (packets), Bounds.
--   Tactile/Reader.antt      threadLoop's handling of a packet. Below it: Dispatch, Callbacks.
--   Tactile/Port.antt        threadLoop's reads of the port, data rate and autosend packets.
--   Tactile/Thread.antt      threadLoop as a whole. Below it: Rounds, Delivered (from the bytes of the
--                            port to the calls of the callback).
--   Tactile/Baseline.antt    findBaseline. Below it: Average, Wait.
--   Tactile/Version.antt     getFirmwareVersion.
--   Tactile/Lifecycle.antt   the constructor, start, stop, the loop's test and the destructor.
--
-- Base.antt and its children hold tests, lists, bits and words. Tests.antt of each part has the
-- theorems at concrete inputs.
--
-- Numbers are natural numbers, with the wrap-around of a w-bit integer written as a remainder. Memory
-- is a list of bytes. State is passed from call to call. What runs on other threads is listed: calls
-- between two wake-ups of a wait or before a command is set, commands set around an exchange. How a
-- waiting thread is notified is modelled with the condition variables of the platforms. Time is a
-- number that the clock of the model supplies; the one sum that the code does not keep within the
-- clock's range wraps around.
--
-- Fuel: the parser of sensor data has one round for each byte and one more; the attempts to connect
-- have three; a wait has a round for each wake-up to come and two more. All are shown to be enough.
-- The loops of the serial ports and of the sleeps run on lists, one element for each round, of what the
-- operating system and the clock answer; one that has used up its list is said to be still running, and
-- the theorems say when it is not. Every other loop is structural.
--
-- A `double` is a record of the operations that the code uses, whose laws are those of IEEE 754 that the
-- theorems need; one instance, of tenths of natural numbers, meets them.
--
-- Outside the model: the Modbus stack (third_party/nanomodbus), whose transactions are a record that
-- the client takes; libserialport; the operating system's ports, clocks, mutexes and threads, whose answers
-- are arguments; the texts of messages and exceptions; loggers; the construction of objects that only
-- passes arguments on; the other examples, the tests, the Python tools and the web viewer.
pub mod Base
pub mod Grippers
pub mod Tactile
