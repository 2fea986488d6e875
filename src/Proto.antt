-- ===== src/Proto.antt =====
-- src/proto: byte order, body reader and writer, frame header, message ids and error codes.
pub mod ByteOrder
pub mod Codec
pub mod Frame
pub mod Messages
