-- ===== src/Wire.antt =====
-- internal/wire: the messages, their encoder and their decoder.
pub mod Message
pub mod Error
pub mod Layout
pub mod Build
pub mod Encode
pub mod Decoder
pub mod Decode
pub mod Session
pub mod Preamble
pub mod Record
pub mod Setup
pub mod Tests
