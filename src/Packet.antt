-- ===== src/Packet.antt =====
-- include/ftl/protocol/packet.hpp: the two halves of a packet.
use beyond_protocol.Prelude.{ℕ, List, leb, if◌then◌else◌}
use beyond_protocol.Prelude.Int.{ℤ}

-- StreamPacket. The fields that are never sent (hints, retry count, local time) are left out.
pub record StreamPacket : Type 0 where
  pub version : ℕ
  pub timestamp : ℤ
  pub stream_id : ℕ
  pub frame_number : ℕ
  pub channel : ℕ
  pub flags : ℕ

-- DataPacket. `packet_count` is the union with dataFlags.
pub record DataPacket : Type 0 where
  pub codec : ℕ
  pub frame_count : ℕ
  pub bitrate : ℕ
  pub packet_count : ℕ
  pub bytes : List ℕ

-- frameNumber()
unfoldable pub frame_number_of : StreamPacket → ℕ
frame_number_of p = if leb 4 p.version then p.frame_number else p.stream_id

-- frameSetID()
unfoldable pub frame_set_id : StreamPacket → ℕ
frame_set_id p = if leb 4 p.version then p.stream_id else 0

-- PacketPair
pub record PacketPair : Type 0 where
  pub first : StreamPacket
  pub second : DataPacket
