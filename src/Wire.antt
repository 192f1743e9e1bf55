-- ===== src/Wire.antt =====
-- The wire format of metalbond: the messages of types.go as protobuf payloads (Wire/Serialize), and
-- the packets of peer.go's `sendMessage` and `rxLoop` (Wire/Packet).
pub mod Library
pub mod Serialize
pub mod RoundTrip
pub mod Packet
pub mod Stream
pub mod Rejects
