-- ===== src/Net.antt =====
-- src/streams/netstream.cpp and netstream.hpp: a stream between a host and its clients over the network.
-- This file has the state and the sending of packets and requests, with what the universe answers to
-- each send as a parameter. The measured latencies that go with a packet are left out, and the
-- handlers are events: a call returns, in order, what it sends and what it triggers.
pub mod Requests
pub mod Control
pub mod Buffer
pub mod Clients
pub mod Invariant
pub mod Register
pub mod Turns
pub mod Batch
pub mod Several
pub mod Sent
pub mod Served
pub mod Delivered
pub mod Arrive
pub mod Hosting
pub mod Flow
pub mod Lockstep
pub mod Reached
use beyond_protocol.Prelude.{
  ℕ, ◌+◌, ◌*◌, ◌%◌, ◌^◌, Bool, true, false, not, ◌&&◌, ◌||◌, ◌==◌, ltb, if◌then◌else◌, List, [],
  ◌∷◌, ◌++◌, Option, none, some, lookup, put, length,
}
use beyond_protocol.Prelude.Int.{ℤ, pos, ◌-ℤ◌, ltb_ℤ}
use beyond_protocol.FrameId.{FrameId, make}
use beyond_protocol.Packet.{StreamPacket, DataPacket}
use beyond_protocol.Channels.{end_frame}
use beyond_protocol.Stream.{Stream, has_bit}
use beyond_protocol.Children.{Request}

-- detail::StreamClientLocal
pub record Client : Type 0 where
  pub peerid : ℕ
  pub txcount : ℤ
  pub channels : ℕ
  pub quality : ℕ

-- The static counters of the rates: req_bitrate__, rx_sample_count__, tx_bitrate__, tx_sample_count__.
pub record Rates : Type 0 where
  pub rx_bits : ℕ
  pub rx_samples : ℕ
  pub tx_bits : ℕ
  pub tx_samples : ℕ

-- Net. `peer` is the remote host's identifier, `clients` is clients_local_.
pub record Net : Type 0 where
  pub base : Stream
  pub active : Bool
  pub host : Bool
  pub paused : Bool
  pub peer : Option ℕ
  pub clients : List (ℕ × List Client)
  pub tally : List ℕ
  pub bitrate : ℕ
  pub bytes_received : ℕ
  pub frames_to_request : ℕ
  pub rates : Rates

-- What a call does to the outside. `asked` is a send to *peer_, which is undefined when that is empty.
pub data Event : Type 0 where
  posted : ℕ → StreamPacket → DataPacket → Event
  asked : Option ℕ → StreamPacket → DataPacket → Event
  available : ℕ → ℕ → Event
  connected : ℕ → Event
  requested : Request → Event
  received : StreamPacket → DataPacket → Event
  enabling : ℕ → ℕ → ℕ → Event
  failed : ℕ → Event

-- What comes of a send: the universe has no such peer, or its send answers false, throws or takes it.
pub data Answer : Type 0 where
  no_peer : Answer
  refused : Answer
  threw : Answer
  taken : Answer

abbrev pub is_taken : Answer → Bool
is_taken taken = true
is_taken _ = false

unfoldable pub frame_of : StreamPacket → ℕ
frame_of spkt = (make spkt.stream_id spkt.frame_number).id

-- Whether a client is sent the packet without its data.
unfoldable pub strips : StreamPacket → DataPacket → Client → Bool
strips spkt pkt client =
    ltb spkt.channel 32 && (ltb 0 (length pkt.bytes) && not (has_bit client.channels spkt.channel))

-- pkt_strip
unfoldable pub strip : DataPacket → DataPacket
strip pkt = record pkt { bytes = [] }

-- _checkTXRate
unfoldable pub check_tx_rate : ℕ → Rates → Rates
check_tx_rate size r = record r { tx_bits = r.tx_bits + size * 8; tx_samples = r.tx_samples + 1 }

-- The packet as this client gets it.
unfoldable pub client_packet : StreamPacket → DataPacket → Client → DataPacket
client_packet spkt pkt client = if strips spkt pkt client then strip pkt else pkt

-- The client after the packet, by what came of the send.
unfoldable pub serve : Answer → StreamPacket → Client → Client
serve answer spkt client =
    if is_taken answer
    then (if spkt.channel == end_frame
        then record client { txcount = client.txcount -ℤ pos 1 }
        else client)
    else record client { txcount = pos 0 }

-- Without a peer there is nothing to send to.
unfoldable pub serve_events : Answer → StreamPacket → DataPacket → Client → List Event
serve_events no_peer spkt pkt client = []
serve_events _ spkt pkt client = posted client.peerid spkt (client_packet spkt pkt client) ∷ []

unfoldable pub serve_rates : Answer → StreamPacket → DataPacket → Client → Rates → Rates
serve_rates answer spkt pkt client r =
    if is_taken answer && (not (strips spkt pkt client) && ltb 0 (length pkt.bytes))
    then check_tx_rate (length pkt.bytes) r
    else r

-- The loop of send() over the clients of the packet's frame.
unfoldable pub serve_all :
    (ℕ → Answer)
    → StreamPacket
    → DataPacket
    → List Client
    → Rates
    → List Client × (Rates × List Event)
serve_all answers spkt pkt [] r = ([], (r, []))
serve_all answers spkt pkt (c ∷ cs) r =
    let answer = answers c.peerid in
    let (cs', (r', events)) = serve_all answers spkt pkt cs (serve_rates answer spkt pkt c r) in
    (serve answer spkt c ∷ cs', (r', serve_events answer spkt pkt c ++ events))

unfoldable pub is_stale : Client → Bool
is_stale c = not (ltb_ℤ (pos 0) c.txcount)

unfoldable pub has_stale : List Client → Bool
has_stale [] = false
has_stale (c ∷ cs) = is_stale c || has_stale cs

unfoldable pub drop_stale : List Client → List Client
drop_stale [] = []
drop_stale (c ∷ cs) = if is_stale c then drop_stale cs else c ∷ drop_stale cs

unfoldable pub is_empty : List Client → Bool
is_empty [] = true
is_empty (c ∷ cs) = false

-- _cleanUp: the clients that have had all their frames, and then the frames without clients.
unfoldable pub clean_clients : List (ℕ × List Client) → List (ℕ × List Client)
clean_clients [] = []
clean_clients ((id, cs) ∷ m) =
    let rest = clean_clients m in
    if is_empty (drop_stale cs) then rest else (id, drop_stale cs) ∷ rest

unfoldable pub clean_up : Net → Net
clean_up n = record n { clients = clean_clients n.clients }

-- The part of send() for a host.
unfoldable pub send_to_clients : (ℕ → Answer) → Net → StreamPacket → DataPacket → Net × List Event
send_to_clients answers n spkt pkt = elim (lookup (frame_of spkt) n.clients) [
  | none ↦ (n, [])
  | some cs ↦
      let (cs', (rates, events)) = serve_all answers spkt pkt cs n.rates in
      let n' = record n { clients = put (frame_of spkt) cs' n.clients; rates = rates } in
      (if has_stale cs' then clean_up n' else n', events)
]

-- The part of send() for a client, with whether the universe's send throws.
unfoldable pub send_to_peer : Bool → Net → StreamPacket → DataPacket → Net × (Bool × List Event)
send_to_peer throws n spkt pkt =
    let rates =
      if ltb 0 (length pkt.bytes) then check_tx_rate (length pkt.bytes) n.rates else n.rates in
    (if throws then n else record n { rates = rates }, (not throws, asked n.peer spkt pkt ∷ []))

unfoldable pub send :
    (ℕ → Answer) → Bool → Net → StreamPacket → DataPacket → Net × (Bool × List Event)
send answers throws n spkt pkt =
    if not n.active
    then (n, (false, []))
    else (if n.paused
        then (n, (true, []))
        else (if n.host
            then (let (n', events) = send_to_clients answers n spkt pkt in (n', (true, events)))
            else send_to_peer throws n spkt pkt))

-- post: always true.
unfoldable pub post :
    (ℕ → Answer) → Bool → Net → StreamPacket → DataPacket → Net × (Bool × List Event)
post answers throws n spkt pkt =
    let (n', (ok, events)) = send answers throws n spkt pkt in (n', (true, events))

-- Codec::kAny
abbrev pub any_codec : ℕ
any_codec = 255

-- The two halves of a request, sent at `now`.
unfoldable pub request_packet : ℤ → ℕ → ℕ → ℕ → Bool → StreamPacket
request_packet now c frameset frames doreset = record {
  version = 5;
  timestamp = now;
  stream_id = frameset % 2 ^ 8;
  frame_number = frames % 2 ^ 8;
  channel = c;
  flags = if doreset then 5 else 1;
}

unfoldable pub request_data : ℕ → ℕ → DataPacket
request_data count bitrate = record {
  codec = any_codec;
  frame_count = count % 2 ^ 8;
  bitrate = bitrate;
  packet_count = 0;
  bytes = [];
}

-- _sendRequest. Its bitrate argument is not used.
unfoldable pub send_request : Net → ℤ → ℕ → ℕ → ℕ → ℕ → Bool → Bool × List Event
send_request n now c frameset frames count doreset =
    if not n.active || n.host then (false, []) else (
      true,
      asked n.peer (request_packet now c frameset frames doreset) (request_data count n.bitrate)
          ∷ [],
    )
