-- ===== src/Net/Requests.antt =====
-- src/streams/netstream.cpp: what a net stream does with the packets that it receives, how a host keeps
-- the clients that ask for frames, and how a client asks for more. `now` is the time of the call.
use beyond_protocol.Prelude.{
  ℕ, zero, suc, ◌-◌, ◌+◌, ◌*◌, ◌/◌, ◌^◌, ◌%◌, min, Bool, true, false, not, ◌&&◌, ◌||◌, ◌==◌, ltb,
  leb, if◌then◌else◌, List, [], ◌∷◌, ◌++◌, Option, none, some, ◌>>=◌, bit_or, lookup, put, length,
  set, get_elem?,
}
use beyond_protocol.Prelude.Int.{ℤ, pos, ltb_ℤ}
use beyond_protocol.FrameId.{FrameId, frameset, source, make}
use beyond_protocol.Packet.{StreamPacket, DataPacket}
use beyond_protocol.Channels.{end_frame}
use beyond_protocol.Stream.{has_bit, seen, frames, enabled_in, enabled_channels}
use beyond_protocol.Children.{Request}
use beyond_protocol.Net.{
  Client, Rates, Net, Event, available, connected, requested, received, frame_of, send_request,
}

unfoldable pub max_ℤ : ℤ → ℤ → ℤ
max_ℤ a b = if ltb_ℤ a b then b else a

-- client.channels |= 1 << channel, for a video channel.
unfoldable pub with_channel : ℕ → ℕ → ℕ
with_channel channel mask = if ltb channel 32 then bit_or mask (2 ^ channel) else mask

unfoldable pub renew : ℕ → ℕ → Client → Client
renew count channel c = record c {
  txcount = max_ℤ c.txcount (pos count);
  channels = with_channel channel c.channels;
}

-- The loop of _processRequest over the clients of the frame, with `found`.
unfoldable pub renew_all : ℕ → ℕ → ℕ → List Client → List Client × Bool
renew_all p count channel [] = ([], false)
renew_all p count channel (c ∷ cs) =
    let (cs', found) = renew_all p count channel cs in
    if c.peerid == p then (renew count channel c ∷ cs', true) else (c ∷ cs', found)

unfoldable pub new_client : ℕ → ℕ → ℕ → Client
new_client p count channel =
    renew count channel (record { peerid = p; txcount = pos 0; channels = 0; quality = 255 })

unfoldable pub clients_of : ℕ → Net → List Client
clients_of id n = elim (lookup id n.clients) [ none ↦ [] | some cs ↦ cs ]

-- The client of the peer `p` for a frame is renewed or added.
unfoldable pub register : Net → ℕ → ℕ → ℕ → ℕ → Net × List Event
register n id p count channel =
    let (cs, found) = renew_all p count channel (clients_of id n) in
    if found then (record n { clients = put id cs n.clients }, []) else (
      record n { clients = put id (cs ++ new_client p count channel ∷ []) n.clients },
      connected p ∷ [],
    )

-- An injected packet has no peer, and registers none.
unfoldable pub register_for : Option ℕ → Net → ℕ → ℕ → ℕ → Net × List Event
register_for none n id count channel = (n, [])
register_for (some p) n id count channel = register n id p count channel

-- _processRequest for one frame: the packet's bitrate is lowered for the caller too.
unfoldable pub request_frame :
    Net → Option ℕ → StreamPacket → DataPacket → Net × (DataPacket × List Event)
request_frame n p spkt pkt =
    let (n', events) = register_for p n (frame_of spkt) pkt.frame_count spkt.channel in
    let pkt' =
      if ltb spkt.channel 32 then record pkt { bitrate = min pkt.bitrate n.bitrate } else pkt in
    let request : Request = record {
      id = make spkt.stream_id spkt.frame_number;
      channel = spkt.channel;
      bitrate = pos pkt'.bitrate;
      count = pos pkt'.frame_count;
      codec = pkt'.codec;
    } in
    (n', (pkt', events ++ requested request ∷ []))

unfoldable pub is_batch : StreamPacket → Bool
is_batch spkt = spkt.stream_id == 255 || spkt.frame_number == 255

-- Whether a frame of the stream belongs to a batch.
unfoldable pub in_batch : StreamPacket → FrameId → Bool
in_batch spkt f =
    (spkt.stream_id == 255 || (frameset f == spkt.stream_id))
    && (spkt.frame_number == 255 || (source f == spkt.frame_number))

-- spkt2 for a frame of the batch, its fields being bytes.
unfoldable pub for_frame : StreamPacket → FrameId → StreamPacket
for_frame spkt f = record spkt { stream_id = frameset f % 2 ^ 8; frame_number = source f }

-- The loop over frames(), with the call for each frame as an argument. A call that does not return
-- leaves none.
unfoldable pub request_each :
    (Net → StreamPacket → DataPacket → Option (Net × (DataPacket × List Event)))
    → StreamPacket
    → List ℕ
    → Net
    → DataPacket
    → Option (Net × (DataPacket × List Event))
request_each call spkt [] n pkt = some (n, (pkt, []))
request_each call spkt (id ∷ ids) n pkt = do
  (n', (pkt', events)) ←
      (if in_batch spkt (record { id = id })
        then call n (for_frame spkt (record { id = id })) pkt
        else some (n, (pkt, [])))
  (n'', (pkt'', more)) ← request_each call spkt ids n' pkt'
  some (n'', (pkt'', events ++ more))

-- _processRequest, with the depth of its calls of itself as fuel.
unfoldable pub process_request :
    ℕ → Option ℕ → Net → StreamPacket → DataPacket → Option (Net × (DataPacket × List Event))
process_request zero p n spkt pkt = none
process_request (suc depth) p n spkt pkt =
    if is_batch spkt
    then request_each (process_request depth p) spkt (frames n.base) n pkt
    else some (request_frame n p spkt pkt)

-- flags & kFlagRequest, on a packet without data.
unfoldable pub is_request : StreamPacket → DataPacket → Bool
is_request spkt pkt = (length pkt.bytes == 0) && has_bit spkt.flags 0

-- _checkRXRate
unfoldable pub check_rx_rate : ℕ → Rates → Rates
check_rx_rate size r = record r { rx_bits = r.rx_bits + size * 8; rx_samples = r.rx_samples + 1 }

-- A request without data is processed by a host.
unfoldable pub answer_request :
    ℕ → Option ℕ → Net → StreamPacket → DataPacket → Option (Net × (DataPacket × List Event))
answer_request depth p n spkt pkt =
    if n.host && is_request spkt pkt
    then process_request depth p n spkt pkt
    else some (n, (pkt, []))

-- _processPacket of an active stream, once the bytes are counted.
unfoldable pub pass_on : ℕ → Net → Option ℕ → StreamPacket → DataPacket → Option (Net × List Event)
pass_on depth n1 p spkt pkt = do
  (n2, (pkt', events)) ← answer_request depth p n1 spkt pkt
  (let rates =
        if ltb 0 (length pkt'.bytes)
        then check_rx_rate (length pkt'.bytes) n2.rates
        else n2.rates in
      some (record n2 { rates = rates }, events ++ received spkt pkt' ∷ []))

-- _processPacket, for a packet of the peer `p` or of none.
unfoldable pub process_packet :
    ℕ → Net → Option ℕ → StreamPacket → DataPacket → Option (Net × List Event)
process_packet depth n p spkt_raw pkt =
    if not n.active
    then some (n, [])
    else pass_on depth (record n { bytes_received = n.bytes_received + length pkt.bytes }) p
        (record spkt_raw { version = 4 }) pkt

-- The requests for the channels of one frame, and those for several frames.
unfoldable pub request_channels : Net → ℤ → ℕ → List ℕ → Bool → List Event
request_channels n now id [] doreset = []
request_channels n now id (c ∷ cs) doreset =
    let f : FrameId = record { id = id } in
    (send_request n now c (frameset f) (source f) n.frames_to_request doreset).1
    ++ request_channels n now id cs doreset

unfoldable pub request_frames : Net → ℤ → List ℕ → Bool → List Event
request_frames n now [] doreset = []
request_frames n now (id ∷ ids) doreset =
    request_channels n now id (enabled_channels n.base id) doreset
    ++ request_frames n now ids doreset

-- The handling of recurring requests, for the end of a frame.
unfoldable pub recur : Net → ℤ → ℕ → Net × List Event
recur n now fs = elim (get_elem? n.tally fs) [
  | none ↦ (n, [])
  | some left ↦
      if leb left (n.frames_to_request / 2)
      then (
        record n { tally = set n.tally fs n.frames_to_request },
        request_frames n now (enabled_in fs n.base) false,
      )
      else (record n { tally = set n.tally fs (left - 1) }, [])
]

-- seen() with what it triggers.
unfoldable pub note_seen : Net → ℕ → ℕ → Net × List Event
note_seen n id channel =
    let (base, told) = seen n.base id channel in
    (record n { base = base }, if told then available id channel ∷ [] else [])

-- _earlyProcessPacket; none is the failed CHECK, which ends the program.
unfoldable pub early_process_packet :
    Net → ℤ → StreamPacket → DataPacket → Option (Net × List Event)
early_process_packet n now spkt pkt =
    if not (ltb spkt.stream_id 5 || (spkt.stream_id == 255))
    then none
    else (if not n.active
        then some (n, [])
        else (let (n1, events) =
              if n.host && is_request spkt pkt
              then (n, [])
              else note_seen n (frame_of spkt) spkt.channel in
            let again = not n.host && (spkt.channel == end_frame) in
            let (n2, more) =
              if again
              then recur n1 now (frameset (make spkt.stream_id spkt.frame_number))
              else (n1, []) in
            if n.paused then some (n1, events) else some (n2, events ++ more)))

-- The handler that begin() binds on a host.
unfoldable pub host_receive :
    ℕ → Net → ℤ → ℕ → StreamPacket → DataPacket → Option (Net × List Event)
host_receive depth n now p spkt pkt = do
  (n1, events) ← early_process_packet n now spkt pkt
  (n2, more) ← process_packet depth n1 (some p) spkt pkt
  some (n2, events ++ more)
