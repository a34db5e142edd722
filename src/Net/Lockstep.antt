-- ===== src/Net/Lockstep.antt =====
-- A host and a client of src/streams/netstream.cpp from the client's first request on, where each packet arrives
-- before the next is posted.
use beyond_protocol.Prelude.{ℕ, false, List, [], ◌∷◌, ◌++◌, Option, some, ◌>>=◌, map}
use beyond_protocol.Prelude.Int.{ℤ}
use beyond_protocol.Packet.{StreamPacket, DataPacket}
use beyond_protocol.Net.{Net, taken, frame_of, post}
use beyond_protocol.Net.Sent.{sent_to}
use beyond_protocol.Net.Arrive.{round}
use beyond_protocol.Net.Hosting.{Hosting}

-- The headers of the packets that the host sends to the client, over rounds in which a packet is posted, and it
-- and the requests that it brings about arrive.
abbrev pub arrivals :
    ℕ → ℤ → ℕ → List (StreamPacket × DataPacket) → Net → Net → Option (List StreamPacket)
arrivals depth now p [] h c = some []
arrivals depth now p ((spkt, pkt) ∷ packets) h c = do
  (h1, c1) ← round depth now p h c spkt pkt
  more ← arrivals depth now p packets h1 c1
  some (map (λ s. s.0) (sent_to p (frame_of spkt) (post (λ q. taken) false h spkt pkt).1.1) ++ more)
