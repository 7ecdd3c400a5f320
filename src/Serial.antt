-- ===== src/Serial.antt =====
-- main/src/Adapter/Serial_Adapter: the serial line between the master node and the server.
pub mod Frames
pub mod RoundTrip
pub mod Bounds
pub mod Codec
pub mod Handler
pub mod CodecLaws
pub mod Loop
pub mod Server
pub mod Inject
