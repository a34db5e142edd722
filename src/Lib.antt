-- ===== src/Lib.antt =====
-- Verification of the Beyond protocol library, which sends streams of video, audio and data packets
-- over files, TCP, WebSockets and QUIC.
--
-- The parts, and the files that model them:
--
-- - FrameId: the packed identifier of a frame (include/ftl/protocol/frameid.hpp).
-- - Channels: sets of channels (src/channelSet.cpp), with isPersistent.
-- - Packet: the two halves of a packet (include/ftl/protocol/packet.hpp).
-- - Stream: the base class of streams (src/streams/streams.cpp): which frames and channels were seen
--   and which are enabled. Stream/Seen compares it with the history of the calls, Stream/Selection
--   says what the enabling and disabling calls change.
-- - Children: the virtual methods that the muxer and the broadcaster call, as a record of functions
--   over any world, and the forms of the loops over streams. Children/Loops says what the loops call.
-- - Broadcast: several streams posted to as one (src/streams/broadcaster.cpp).
-- - Muxer: several streams shown as one, under local frame identifiers (src/streams/muxer.cpp). Muxer
--   has the maps; Muxer/Calls the calls that go through to a child, and the handlers given to it.
--   Muxer/Entries, Invariant, Mapping and Reached are about the streams and the maps, Routing and Enable about the calls, and
--   Fixed about streams with a fixed frameset.
-- - Net: a stream between a host and its clients over the network (src/streams/netstream.cpp). Net has
--   the state, the sending of packets and of requests; Net/Requests what is done with received packets and
--   how requests are answered; Net/Control starting, ending and selecting; Net/Buffer the receive buffer.
--   Net/Clients, Invariant, Register and Reached are about the table of clients, Turns, Batch and Several about requests for
--   several frames, Sent, Served and Delivered about what a client gets, Arrive, Hosting, Flow and Lockstep about a host and a
--   client together, Buffer/Pending and Buffer/Complete about the receive buffer.
-- - Handle: the lists of callbacks behind handles (include/ftl/handle.hpp). Calls is about what is called, Kept about
--   what a handle stands for.
-- - Rpc: remote calls, of src/dispatcher.cpp with the calls that wait for an answer of src/peer.cpp.
--   Rpc/Calls is about the callbacks and the search for handlers, Rpc/Exchange about a call and its answer
--   through both ends, and Rpc/Handshake has the handshake of src/peer.cpp.
-- - PeerTcp: a peer over a TCP socket, src/peer_tcp.cpp. Jobs is the hand-over of received messages to jobs as a
--   step relation, Jobs/Alone and Jobs/Pile are about it where jobs take turns and where they meet. Runs has
--   sequences of calls, Sending is about the lock on the send buffer, Closing, Told and Notified about closing.
-- - QuicPeer: the send queue of src/quic/src/quic_peer.cpp. Measures has what is counted in it, Accounts and Reached
--   are about the counts after any calls.
--   QuicPeer/Receive is OnData, with the memory of msgpack as a parameter; Receive/Room and Taken are about one buffer,
--   Agree about the loop, Whole compares it with the decoder of Websocket.
-- - PacketManager: the order of the packets of one frame identifier (src/streams/packetmanager.cpp). Present and Whole are about
--   frames that come one after the other, Late about a frame that comes early, Kept about the buffer of 100
--   packets. The fuel is the depth to which submit calls itself; two is enough for the theorems here.
-- - Universe: the table of peers of src/universe.cpp. Universe/Slots is about its places, Invariant and
--   Reached about what holds after any calls (whether a URI is that of a listener of its own is a parameter), Cleanup about the removal of dead peers, Stale about the
--   identifiers it leaves behind.
-- - Connection: SocketConnection::writev (src/protocol/connection.cpp), over the answers of a socket.
-- - Websocket: the framing of RFC 6455. Header, Masking and Read are src/quic/src/websocket.hpp, with
--   the loop of src/quic/src/quic_peer.cpp that reads received buffers; Tcp is
--   src/protocol/websocket.cpp, which Tcp/Agree compares with Header.
-- - Prelude: the names that the others share, lists, maps and bits over native numbers.
-- - Tests: the theorems at concrete inputs.
--
-- A muxer or a broadcaster is itself a stream: it keeps the state of Stream as its base, and calls the
-- streams it holds through Children. A packet of a child goes through Muxer.Calls.on_packet, is
-- triggered under a local identifier, and an answer to it goes back through Muxer.Calls.post. Messages of a
-- connection are framed by Websocket.Tcp and sent by Connection. A net stream keeps Stream as its base too;
-- what the universe answers to its sends is a parameter, and what it sends and triggers are events.
--
-- Numbers are natural numbers, with the wrap-around of the source's widths written out where a value can
-- reach it. Maps are association lists, in which the order stands for the order of iteration. But for PeerTcp/Jobs, calls are
-- taken one at a time: each holds its mutex while it reads or writes the state. The loop that drains a received buffer
-- runs on fuel, one round more than the buffer has bytes, since each round that goes on takes a byte. The
-- socket's answers in Connection are a list, one for each call; when it is used up the function is still
-- waiting, which is an ending of its own. The depth to which _processRequest calls itself is fuel; two is
-- enough where no frame of the stream is numbered 255, and where one is, no fuel is.
--
-- Not modelled: sockets, TLS, msquic and the system calls under them; msgpack, JSON and the files;
-- the copied libraries (base64, loguru, ctpl, nlohmann, span); locks and threads, but for those of a TCP peer; of the net stream, the adjustment of its
-- buffering time, which is in floating point, its properties and statistics, and the measured latencies. The file
-- stream, and the sockets, the statistics and the threads of the universe have no model yet.
pub mod Broadcast
pub mod Channels
pub mod Children
pub mod Connection
pub mod FrameId
pub mod Handle
pub mod Muxer
pub mod Net
pub mod Packet
pub mod PacketManager
pub mod PeerTcp
pub mod Prelude
pub mod QuicPeer
pub mod Rpc
pub mod Stream
pub mod Tests
pub mod Universe
pub mod Websocket
