-- ===== src/Websocket.antt =====
-- The framing of RFC 6455: src/quic/src/websocket.hpp (frames inside QUIC streams) and
-- src/protocol/websocket.cpp (frames over TCP).
mod Bytes
pub mod OpCode
pub mod Header
pub mod Masking
pub mod Tcp
pub mod Read
