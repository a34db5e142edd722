-- ===== src/Net/Arrive.antt =====
-- How packets arrive at a client and requests at a host, by src/streams/netstream.cpp.
use beyond_protocol.Prelude.{
  ℕ, suc, ◌-◌, ◌+◌, ◌/◌, ◌<◌, ◌≡◌, refl, ap, sym, ◌∙◌, arith, Bool, true, false, ◌==◌, leb, ltb,
  lt→ltb, if◌then◌else◌, List, [], ◌∷◌, ◌++◌, Option, some, ◌>>=◌, lookup, put, lookup-put, length,
  get_elem?, set,
}
use beyond_protocol.Prelude.Int.{ℤ}
use beyond_protocol.Packet.{StreamPacket, DataPacket}
use beyond_protocol.FrameId.{frameset, source, make}
use beyond_protocol.Channels.{end_frame}
use beyond_protocol.Stream.{Stream, FsState, enabled_in, enabled_channels, get_state, seen, see}
use beyond_protocol.Net.{
  Net, taken, Event, available, received, asked, frame_of, post, send_request, request_packet,
  request_data,
}
use beyond_protocol.Net.Requests.{
  pass_on, answer_request, recur, note_seen, early_process_packet, host_receive, process_packet,
  process_request, request_frame, request_frames, request_channels, is_request, is_batch,
}
use beyond_protocol.Net.Clients.{find}
use beyond_protocol.Net.Requests.{register, register_for, clients_of, check_rx_rate}
use beyond_protocol.Net.Invariant.{client, clients_of_lem, listed}
use beyond_protocol.Net.Sent.{sent_to}
use beyond_protocol.Net.Served.{IsServing}

see-selection :
    (f : FsState) (c : ℕ) → ((see f c).0.enabled ≡ f.enabled) × ((see f c).0.selected ≡ f.selected)
unfolding see
see-selection f c = ground arith

-- What a stream receives is no part of what it has enabled.
pub seen-enabled_channels :
    (s : Stream) (id c j : ℕ) → enabled_channels (seen s id c).0 j ≡ enabled_channels s j
unfolding seen enabled_channels
seen-enabled_channels s id c j =
    ground (arith, see-selection (get_state s id) c, lookup-put id j (see (get_state s id) c).0 s)

put-enabled_in :
    (fs id : ℕ) (f : FsState) (s : Stream)
    → f.enabled ≡ (get_state s id).enabled
    → enabled_in fs (put id f s) ≡ enabled_in fs s
unfolding enabled_in put lookup
put-enabled_in fs id f [] h = ground arith
put-enabled_in fs id f ((j, w) ∷ s) h = ground (arith, put-enabled_in fs id f s)

pub seen-enabled_in : (s : Stream) (id c fs : ℕ) → enabled_in fs (seen s id c).0 ≡ enabled_in fs s
unfolding seen
seen-enabled_in s id c fs =
    put-enabled_in fs id (see (get_state s id) c).0 s (see-selection (get_state s id) c).0

-- The requests that arrive at the host, from the client that it knows as `p`.
abbrev pub requests_arrive : ℕ → ℤ → ℕ → List Event → Net → Option Net
requests_arrive depth now p [] h = some h
requests_arrive depth now p (asked q spkt pkt ∷ events) h = do
  (h1, more) ← host_receive depth h now p spkt pkt
  requests_arrive depth now p events h1
requests_arrive depth now p (_ ∷ events) h = requests_arrive depth now p events h

-- The packets that arrive at the client, and the requests that it answers with.
abbrev pub packets_arrive :
    ℕ → ℤ → ℕ → List (StreamPacket × DataPacket) → Net → Net → Option (Net × Net)
packets_arrive depth now p [] h c = some (h, c)
packets_arrive depth now p ((spkt, pkt) ∷ packets) h c = do
  (c1, events) ← early_process_packet c now spkt pkt
  h1 ← requests_arrive depth now p events h
  packets_arrive depth now p packets h1 c1

-- The host posts a packet, and it and the requests that it brings about arrive.
abbrev pub round : ℕ → ℤ → ℕ → Net → Net → StreamPacket → DataPacket → Option (Net × Net)
round depth now p h c spkt pkt =
    let (h1, (ok, events)) = post (λ q. taken) false h spkt pkt in
    packets_arrive depth now p (sent_to p (frame_of spkt) events) h1 c

pub client-clients : (m n : Net) (id p : ℕ) → m.clients ≡ n.clients → client m id p ≡ client n id p
client-clients m n id p h =
    ap (find p) (clients_of_lem m id ∙ ap (λ t. listed (lookup id t)) h ∙ sym (clients_of_lem n id))

-- A host at a request for one frame.
module _ (depth : ℕ) (now : ℤ) (p : ℕ) (h : Net) (spkt : StreamPacket) (pkt : DataPacket) where
  request-early :
      IsServing h
      → is_request spkt pkt ≡ true
      → spkt.stream_id < 5
      → early_process_packet h now spkt pkt ≡ some (h, [])
  unfolding early_process_packet
  request-early on req small = ground arith

  -- The request as it is handled, with the bytes counted, and what is counted after it.
  abbrev pub at_four : StreamPacket
  at_four = record spkt { version = 4 }

  abbrev pub requested_at : Net × (DataPacket × List Event)
  requested_at =
      request_frame (record h { bytes_received = h.bytes_received + length pkt.bytes }) (some p)
        at_four pkt

  abbrev pub after_request : Net
  after_request = record requested_at.0 {
    rates =
        if ltb 0 (length requested_at.1.0.bytes)
        then check_rx_rate (length requested_at.1.0.bytes) requested_at.0.rates
        else requested_at.0.rates;
  }

  request-process :
      IsServing h
      → is_request spkt pkt ≡ true
      → is_batch spkt ≡ false
      → process_packet (suc depth) h (some p) spkt pkt
        ≡ some (after_request, requested_at.1.1 ++ received at_four requested_at.1.0 ∷ [])
  unfolding process_packet pass_on answer_request process_request is_request is_batch
  request-process (on, unpaused, host) req single = rw (on, host, req, single) refl

  pub after_request-clients :
      after_request.clients ≡ (register h (frame_of spkt) p pkt.frame_count spkt.channel).0.clients
  unfolding request_frame register_for register clients_of frame_of
  after_request-clients = ground arith

  pub after_request-IsServing : IsServing h → IsServing after_request
  unfolding request_frame register_for register
  after_request-IsServing on = ground arith

  pub host-request :
      IsServing h
      → is_request spkt pkt ≡ true
      → is_batch spkt ≡ false
      → spkt.stream_id < 5
      → (events : List Event) × (host_receive (suc depth) h now p spkt pkt
          ≡ some (after_request, events))
  unfolding host_receive
  host-request on req single small = (
    requested_at.1.1 ++ received at_four requested_at.1.0 ∷ [],
    rw (request-early on req small, request-process on req single) refl,
  )

-- A client at the end of a frame.
module _ (n : Net) (now : ℤ) (fs left : ℕ) (waiting : get_elem? n.tally fs ≡ some left) where
  pub recur_wait :
      leb left (n.frames_to_request / 2) ≡ false
      → recur n now fs ≡ (record n { tally = set n.tally fs (left - 1) }, [])
  unfolding recur
  recur_wait h = ground arith

  -- The request for one channel of one frame.
  abbrev pub one_request : ℕ → ℕ → List Event
  one_request id channel =
      asked n.peer
        (request_packet now channel (frameset (record { id = id })) (source (record { id = id }))
          false)
        (request_data n.frames_to_request n.bitrate)
      ∷ []

  request_frames-one :
      (id channel : ℕ)
      → (n.active ≡ true) × (n.host ≡ false)
      → enabled_channels n.base id ≡ channel ∷ []
      → request_frames n now (id ∷ []) false ≡ one_request id channel
  unfolding request_frames request_channels send_request
  request_frames-one id channel (on, host) channels = rw (channels, on, host) refl

  pub recur_ask :
      (id channel : ℕ)
      → leb left (n.frames_to_request / 2) ≡ true
      → (n.active ≡ true) × (n.host ≡ false)
      → enabled_in fs n.base ≡ id ∷ []
      → enabled_channels n.base id ≡ channel ∷ []
      → recur n now fs
        ≡ (record n { tally = set n.tally fs n.frames_to_request }, one_request id channel)
  unfolding recur
  recur_ask id channel h on frames channels =
      ground (arith, request_frames-one id channel on channels)

-- A client at a packet of a frame.
module _ (c : Net) (now : ℤ) (spkt : StreamPacket) (pkt : DataPacket) where
  abbrev pub noted : Net × List Event
  noted = note_seen c (frame_of spkt) spkt.channel

  abbrev pub again : Net × List Event
  again =
      if spkt.channel == end_frame
      then recur noted.0 now (frameset (make spkt.stream_id spkt.frame_number))
      else (noted.0, [])

  pub early-client :
      (c.active ≡ true) × (c.paused ≡ false) × (c.host ≡ false)
      → spkt.stream_id < 5
      → early_process_packet c now spkt pkt ≡ some (again.0, noted.1 ++ again.1)
  unfolding early_process_packet note_seen
  early-client (on, unpaused, host) small =
      let low = lt→ltb spkt.stream_id 5 small in rw (low, on, unpaused, host) refl

  -- Nothing is asked for by what is seen.
  pub noted-requests_arrive :
      (depth p : ℕ) (events : List Event) (h : Net)
      → requests_arrive depth now p (noted.1 ++ events) h ≡ requests_arrive depth now p events h
  unfolding note_seen
  noted-requests_arrive depth p events h = go (seen c.base (frame_of spkt) spkt.channel).1
    where
      go :
          (told : Bool)
          → requests_arrive depth now p
              ((if told then available (frame_of spkt) spkt.channel ∷ [] else []) ++ events)
              h
            ≡ requests_arrive depth now p events h
      go true = refl
      go false = refl
