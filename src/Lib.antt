-- ===== src/Lib.antt =====
-- Verification of the Lattice (Planetopia) node firmware: an ESP-NOW mesh of ESP32 nodes in which a
-- master node bridges the mesh to a server over a serial line.
--
-- The program's parts and their files:
--   Config        main/project_config.h, the constants that the rest reads.
--   Errors        main/src/error. Codes has the digits and codes of ErrorCodes.h and Error.h, Core the
--                 reporter of ErrorCore.cpp with its deferred blinking and its restart, Checks err::check.
--   Eeprom        main/src/persistence/EEPROM_Manager. Layout has the addresses of the header; Rom the
--                 buffer of the EEPROM library (`cells`) and what was committed (`committed`), with the
--                 loops over ranges; Manager the members of the class and the loads and saves of single
--                 bytes; Records those of several bytes; Keypair the CRC and the keypair; Init the start
--                 and the migrations; Dump what dumpEEPROM and printAddress print; Calls all calls
--                 that change the state, as one step function. Isolation has the record of each call,
--                 Confinement what a call may write in the state in which it comes.
--   Adapter       main/src/Adapter. Types has the enum, Factory AdapterFactory, Dispatch
--                 Adapter::onMeshData, Pir the PIR adapter.
--   Mesh          main/src/Mesh. Types has mesh_message and the members of the class Mesh as a record;
--                 Startup the constructor and init; Peers the peer list in memory, EEPROM and driver;
--                 Replay isReplay; Receive the receive ring; Sending buildMessage, sendMessage,
--                 transmitCore and the broadcasts; Beacons processMasterBeacon and the timeout; Delivery
--                 processAdapterData and enrollment; Loop drainRecvQueue and loop; KeyDerivation
--                 derivePeerLMK and the key generator over the calls of mbedTLS; Printing
--                 printMeshMessage and debugDumpRadio. PeerStore and PeerRestart have the peer list over
--                 a restart, KeyAgreement the keys of two nodes, Handled what a call of drainRecvQueue
--                 owes to each message, apart from its code.
--   Serial        main/src/Adapter/Serial_Adapter. Frames has the frame receiver, Codec the conversion
--                 between mesh messages and protobuf messages, Handler what a frame or a mesh message
--                 does, Loop the adapter's loop, Inject the receiver injectByte of the unit tests.
--   Hardware      main/src/hardware. Pins has the pins of GpioInput and GpioOutput, Pir the input of the
--                 motion sensor, Button the vote and the wait for a hold, Led the LED, Display the digits and segments of
--                 SevenSegDisplay.cpp, Wire the levels on its two lines, Alarm ErrorCore::signalError
--                 with the display behind it. Lamp has the LED over any calls, Frames a receiver
--                 of the TM1637 protocol, Digits a reader of the segments.
--   Main          main/main.ino. App has its variables, Buttons the two buttons of the loop, Boot setup,
--                 ServerCheck validateServerConfiguration,
--                 Rounds dataRecvCallback and what a round finds and does, Loop the loop. Hold, Wipe,
--                 Gate, Toggle, Restart, Watchdog and Erased have the laws, over one round, over any
--                 rounds, or over any number of starts; Life chains the starts of a node; Calls, Blank, Kept,
--                 Provisioned, Role and ServerRole have what those use.
--   Net           several nodes on one radio. Air has the nodes, the frames in the air and what a node that
--                 hears one does: onDataRecvCallback and drainRecvQueue of main/src/Mesh/Mesh.cpp.
--                 Hearing has a node at rest, NextHop, Relay, Passing, Uplink and Reading the way of
--                 a reading from hop to hop to the master; Spread, Calm, Budget and Flood what the
--                 nodes make of any frames; Range the nodes with their loops and their ranges, Handling,
--                 Sorts, Rounds, Settled, Unreached, Lost and NoRoute how far beacons come.
--   Log           main/src/core/Logger and main/src/network/MacAddress.h. Text has Arduino's String as
--                 far as the logs use it, Logger what is printed at which level, MacAddress the address.
--   Examples      concrete nodes and inputs.
--   Shared        lists over the native numbers, Boolean tests, byte arrays.
--
-- How the parts interact: the methods of Mesh reach the EEPROM manager as a singleton, which the model
-- keeps as the field `eeprom` of the node; the driver's peer table is the field `driver`. A method is a
-- function from the node to the node and a list of effects: frames sent, faults reported, messages
-- delivered to the adapter, enrollments relayed to the server. The serial adapter calls transmit,
-- broadcastAdapterData and enrollPeer of the mesh and passes the effects on. What lies outside is an
-- argument: Env holds the clock, the random number, the radio's answers, the derived key of a
-- link (Mesh/KeyDerivation.antt derives it), the opcodes and whether callbacks are set; Radio what Mesh::init finds; Line and Node what the adapters
-- find; Nanopb the encoder and decoder.
--
-- The loop of main.ino is a chain of parts (`and_then` of Main/Rounds.antt): each takes the App and gives
-- the App, its effects and whether it has restarted the chip, which ends the round. It calls the models
-- of the mesh, the adapters and the EEPROM manager, and hands to the callback what the mesh delivers.
-- What a round finds outside is Inputs, what setup finds is Board. A start ends in an Outcome; Life of
-- Main/Life.antt chains starts by the flash that the one leaves and the other finds.
--
-- Numbers are natural numbers; each w-bit member keeps its wrap-around as `% 2 ^ w`, and a difference
-- of two readings of millis() is `elapsed`, modulo 2 ^ 32. The sizes are those of the source: 512 bytes
-- of EEPROM, 10 peers, 16 replay entries, 8 slots of the ring, 256 bytes of a frame, 10 hops. The loop
-- of drainRecvQueue runs on fuel 8: the ring holds at most 7 entries, and no handler adds one. Every
-- other loop is a recursion on the list or the bytes that it walks over. The fuel of `signal` in
-- Hardware/Alarm.antt is the depth of the recursion of signalError, and its laws hold for any fuel.
--
-- The two tasks that share the receive ring are the step relation of Mesh/Interleaving.antt: the
-- callback's test, copy and publication, and the main loop's taking and finishing, in any order.
--
-- The nodes of Net hear each other by the frames that esp_now_send accepts: a frame to one address is
-- heard by the node with it, a frame to all by every other node. `run` of Net/Air.antt takes the oldest
-- frame first and loses none, on fuel that counts the frames heard; the steps of Net/Flood.antt take any frame, and
-- each node may miss it, or hears it at a time, with a radio and with random numbers of its own. A node
-- answers with its callback and one call of drainRecvQueue. The steps of Net/Range.antt are frames heard by
-- nodes in the range of the sender and whole rounds of Mesh::loop at any node; in Net/Air.antt and
-- Net/Flood.antt the loops send nothing. What an adapter sends is only the one reading of Net/Reading.antt.
-- Two frames at the same time do not disturb each other. A call of mbedTLS that does not return 0 ends
-- in err::fatal, which `halts` of Mesh/KeyDerivation.antt stands for.
--
-- Not modelled: nanopb and mbedTLS (parameters), sscanf and the formatting of the log texts outside of
-- Log, Eeprom/Dump.antt, Main/ServerCheck.antt and Mesh/Printing.antt, the simulation mode,
-- the printed public key, the CPU clock, the power saving of the radio and the timer of the watchdog,
-- and the waits of the display and the LEDs. One reading of the clock serves a whole call of a method
-- of the mesh. A restart that err::fail causes does not cut the rest of a call of the mesh short. The
-- display that setup and the loop write to outside of Hardware/Alarm.antt acknowledges, but for the one
-- answer `display_acks` of its self-test. The EEPROM library and the driver's peer table behave as the
-- mocks under tests/mocks do, and a commit succeeds.
pub mod Shared
pub mod Errors
pub mod Eeprom
pub mod Config
pub mod Adapter
pub mod Mesh
pub mod Serial
pub mod Hardware
pub mod Main
pub mod Examples
pub mod Log
pub mod Net
