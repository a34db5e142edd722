-- ===== src/Broadcast.antt =====
-- include/ftl/protocol/broadcaster.hpp and src/streams/broadcaster.cpp: several streams that are posted
-- to as one. Calls are taken one at a time. What the handlers of add() trigger is what they return.
pub mod Calls
use beyond_protocol.Prelude.{ℕ, Bool, true, false, ◌==◌, if◌then◌else◌, length, List, [], ◌∷◌, ◌++◌}
use beyond_protocol.FrameId.{FrameId}
use beyond_protocol.Packet.{StreamPacket, DataPacket, PacketPair}
use beyond_protocol.Stream.{Stream, seen}
use beyond_protocol.Children.{
  Request, Selector, enable_by, disable_by, Children, and_then_call, call_and_then, call_or_then,
  call_until, call_each,
}

-- `streams` has the identities of the children, and `base` is what the base class keeps.
pub record Broadcast : Type 0 where
  pub streams : List ℕ
  pub base : Stream

unfoldable pub add : Broadcast → ℕ → Broadcast
add b s = record b { streams = b.streams ++ s ∷ [] }

-- streams_.erase of the entry found
unfoldable pub erase_first : ℕ → List ℕ → List ℕ
erase_first s [] = []
erase_first s (x ∷ xs) = if x == s then xs else x ∷ erase_first s xs

unfoldable pub remove : Broadcast → ℕ → Broadcast
remove b s = record b { streams = erase_first s b.streams }

unfoldable pub clear : Broadcast → Broadcast
clear b = record b { streams = [] }

-- The packet handler of add(): what is triggered.
unfoldable pub on_packet : Broadcast → StreamPacket → DataPacket → PacketPair
on_packet b spkt pkt = record { first = spkt; second = pkt }

-- The availability handler of add().
unfoldable pub on_available : Broadcast → FrameId → ℕ → Broadcast × Bool
on_available b id channel =
    let (base, told) = seen b.base id.id channel in (record b { base = base }, told)

-- The request handler of add(): what is triggered.
unfoldable pub on_request : Broadcast → Request → Request
on_request b req = req

module _ (c : Children) where
  unfoldable pub post : Broadcast → StreamPacket → DataPacket → c.World → c.World × Bool
  post b spkt pkt w = call_and_then (c.post spkt pkt) true b.streams w

  unfoldable pub begin : Broadcast → c.World → c.World × Bool
  begin b w = and_then_call c.begin true b.streams w

  unfoldable pub end : Broadcast → c.World → c.World × Bool
  end b w = and_then_call c.end true b.streams w

  unfoldable pub active : Broadcast → c.World → c.World × Bool
  active b w = if length b.streams == 0 then (w, false) else and_then_call c.active true b.streams w

  unfoldable pub active_frame : Broadcast → FrameId → c.World → c.World × Bool
  active_frame b id w =
      if length b.streams == 0 then (w, false) else call_until (c.active_frame id) b.streams w

  unfoldable pub reset : Broadcast → c.World → c.World
  reset b w = call_each c.reset b.streams w

  -- The three overloads of enable().
  unfoldable pub enable : Broadcast → FrameId → Selector → c.World → (Broadcast × c.World) × Bool
  enable b id sel w =
      let (w', r) = call_or_then (c.enable id sel) false b.streams w in
      ((if r then record b { base = enable_by b.base id.id sel } else b, w'), r)

  -- The three overloads of disable().
  unfoldable pub disable : Broadcast → FrameId → Selector → c.World → Broadcast × c.World
  disable b id sel w =
      let w' = call_each (c.disable id sel) b.streams w in
      (record b { base = disable_by b.base id.id sel }, w')
