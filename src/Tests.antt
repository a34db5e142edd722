-- ===== src/Tests.antt =====
-- The theorems of the other modules at concrete inputs, and runs of the definitions.
pub mod MuxerTests
pub mod StreamTests
pub mod WebsocketTests
pub mod ConnectionTests
pub mod BroadcastTests
pub mod HandleTests
pub mod NetTests
pub mod RpcTests
pub mod UniverseTests
pub mod PacketManagerTests
pub mod PeerTcpTests
pub mod QuicPeerTests
