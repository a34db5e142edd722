-- ===== src/Tests/NetTests.antt =====
-- src/streams/netstream.cpp at concrete inputs.
use beyond_protocol.Prelude.Int.{◌*ℤ◌}
use beyond_protocol.Net.Buffer.{
  PacketQueue, Round, new_queue, push, count_packet, weight, count_at, put_count, erase_count,
  release, release_each, should_process_now, has_all, due, pop_consumed, next_due, sooner,
}
use beyond_protocol.Net.Buffer.Pending.{
  pending, Step, pushes, releases, run, count_buffers, count_pushed, run-count,
}
use beyond_protocol.Net.Buffer.Complete.{All, came, announced, release_complete}
use beyond_protocol.Prelude.{
  inl, ℕ, ◌≡◌, refl, inr, arith, true, false, List, [], ◌∷◌, none, some, lookup, put, replicate,
  contains, ◌+◌, ◌^◌, ◌<◌, ◌||◌, ◌==◌,
}
use beyond_protocol.Prelude.Int.{pos, ◌+ℤ◌, ◌-ℤ◌}
use beyond_protocol.FrameId.{make, frameset, source}
use beyond_protocol.Packet.{StreamPacket, DataPacket}
use beyond_protocol.Channels.{end_frame}
use beyond_protocol.Stream.{FsState, frames, has_bit}
use beyond_protocol.Net.{
  Net, taken, frame_of, post, send, send_to_clients, serve_all, serve, serve_events, serve_rates,
  strips, has_stale, is_stale,
}
use beyond_protocol.Net.Requests.{
  clients_of, register, register_for, renew, renew_all, new_client, with_channel, max_ℤ,
  request_frame, is_batch, in_batch, process_request, process_packet, pass_on, answer_request,
  is_request, early_process_packet, host_receive,
}
use beyond_protocol.Net.Invariant.{WellFormed, client}
use beyond_protocol.Net.Turns.{Result}
use beyond_protocol.Net.Batch.{process_request-none}
use beyond_protocol.Net.Sent.{sent_to}
use beyond_protocol.Net.Served.{Post, post_all}
use beyond_protocol.Net.Delivered.{delivered, request-delivered}
use beyond_protocol.Net.Several.{AllPlain, Names, Owed, process_request-Owed}
use beyond_protocol.Packet.{StreamPacket, DataPacket}
use beyond_protocol.Net.Reached.{posts, receives, run_calls, run_calls-WellFormed}

abbrev hosting : Net
hosting = record {
  base = [];
  active = true;
  host = true;
  paused = false;
  peer = none;
  clients = [];
  tally = replicate 5 0;
  bitrate = 255;
  bytes_received = 0;
  frames_to_request = 80;
  rates = record { rx_bits = 0; rx_samples = 0; tx_bits = 0; tx_samples = 0 };
}

abbrev on_channel : ℕ → ℕ → StreamPacket
on_channel channel flags = record {
  version = 5;
  timestamp = pos 7;
  stream_id = 1;
  frame_number = 2;
  channel = channel;
  flags = flags;
}

abbrev holding : List ℕ → DataPacket
holding bytes = record {
  codec = 0;
  frame_count = 2;
  bitrate = 255;
  packet_count = 2;
  bytes = bytes;
}

empty-WellFormed : WellFormed []
unfolding lookup
empty-WellFormed = record {
  keyed = tt;
  unique = λ id cs e. absurd cc;
  filled = λ id cs e. absurd cc;
}

-- A peer asks for two frames, and one is posted.
abbrev one_left : Net
one_left = record hosting {
  clients = (258, record { peerid = 3; txcount = pos 1; channels = 1; quality = 255 } ∷ []) ∷ [];
}

one_left_run :
    run_calls 1
      (receives (pos 9) 3 (on_channel 0 1) (holding [])
        ∷ posts (λ q. taken) false (on_channel end_frame 0) (holding [])
        ∷ [])
      hosting
    ≡ some one_left
unfolding host_receive early_process_packet process_packet pass_on answer_request is_request has_bit
    process_request is_batch request_frame register_for register clients_of renew_all new_client
    renew with_channel max_ℤ frame_of make lookup put post send send_to_clients serve_all serve
    serve_events serve_rates strips has_stale is_stale ◌-ℤ◌
one_left_run = refl

run_calls-WellFormed_example : WellFormed one_left.clients
run_calls-WellFormed_example =
    run_calls-WellFormed 1
      (receives (pos 9) 3 (on_channel 0 1) (holding [])
        ∷ posts (λ q. taken) false (on_channel end_frame 0) (holding [])
        ∷ [])
      hosting one_left empty-WellFormed one_left_run

-- Data of a channel that was asked for, of one that was not, and the ends of three frames.
abbrev posted_packets : List Post
posted_packets =
    record { spkt = on_channel 0 0; pkt = holding (1 ∷ []); answers = λ q. taken }
    ∷ record { spkt = on_channel 1 0; pkt = holding (2 ∷ []); answers = λ q. taken }
    ∷ record { spkt = on_channel end_frame 0; pkt = holding []; answers = λ q. taken }
    ∷ record { spkt = on_channel end_frame 0; pkt = holding []; answers = λ q. taken }
    ∷ record { spkt = on_channel end_frame 0; pkt = holding []; answers = λ q. taken }
    ∷ []

hosting-single : is_batch (on_channel 0 1) ≡ false
unfolding is_batch
hosting-single = refl

hosting-new : client hosting (frame_of (on_channel 0 1)) 3 ≡ none
unfolding clients_of lookup
hosting-new = refl

request-delivered_example :
    (r : Result) × (process_request 1 (some 3) hosting (on_channel 0 1) (holding []) ≡ some r)
    × (sent_to 3 (frame_of (on_channel 0 1)) (post_all posted_packets r.0).1
        ≡ delivered 2 (frame_of (on_channel 0 1)) 0 posted_packets)
request-delivered_example =
    request-delivered hosting 3 (on_channel 0 1) (holding []) 0 1 posted_packets empty-WellFormed
      (refl, refl, refl) hosting-single hosting-new refl
      ((λ e. refl), ((λ e. refl), ((λ e. refl), ((λ e. refl), ((λ e. refl), tt)))))

-- A stream that has seen two frames.
abbrev two_frames : Net
two_frames = record hosting { base = (258, state) ∷ (515, state) ∷ [] }
  where
    state : FsState
    state = record {
      enabled = false;
      selected = [];
      available_persistent = [];
      available_last = 0;
      available_next = 0;
    }

abbrev for_all : StreamPacket
for_all = record (on_channel 0 1) { stream_id = 255; frame_number = 255 }

for_all-batch : is_batch for_all ≡ true
unfolding is_batch
for_all-batch = refl

-- Every frame of frameset 1.
abbrev for_first : StreamPacket
for_first = record (on_channel 0 1) { frame_number = 255 }

two_frames-plain : AllPlain (frames two_frames.base)
unfolding frames
two_frames-plain =
    ((omega arith, omega arith, omega arith), ((omega arith, omega arith, omega arith), tt))

two_frames-has : contains 258 (frames two_frames.base) ≡ true
unfolding frames contains
two_frames-has = refl

for_first-Names : Names for_first 258
for_first-Names = (inr refl, inl refl)

for_first-not : ¬ Names for_first 515
for_first-not (inl e, n) = absurd (omega arith)
for_first-not (inr e, n) = absurd (omega arith)

process_request-Owed_example :
    (r : Result) × (process_request 2 (some 3) two_frames for_first (holding []) ≡ some r)
    × Owed 2 (client r.0 258 3)
    × (client r.0 515 3 ≡ client two_frames 515 3)
process_request-Owed_example =
    process_request-Owed 3 for_first 0 two_frames (holding []) 258 515 3 (inr refl) two_frames-plain
      two_frames-has for_first-Names (inl for_first-not)

-- A stream that has seen frame 255 of frameset 1.
abbrev own_frame : Net
own_frame = record two_frames { base = (511, state) ∷ [] }
  where
    state : FsState
    state = record {
      enabled = false;
      selected = [];
      available_persistent = [];
      available_last = 0;
      available_next = 0;
    }

own_frame-has :
    (contains 511 (frames own_frame.base) ≡ true) × (in_batch for_all (record { id = 511 }) ≡ true)
unfolding frames contains in_batch
own_frame-has = (refl, refl)

own_frame-fields : (frameset (record { id = 511 }) < 2 ^ 8) × (source (record { id = 511 }) ≡ 255)
unfolding frameset source
own_frame-fields = (omega arith, refl)

process_request-none_example : process_request 1000 (some 3) own_frame for_all (holding []) ≡ none
process_request-none_example =
    process_request-none 511 (some 3) 1000 own_frame for_all (holding [])
      (own_frame-fields.0, inr own_frame-fields.1) own_frame-has.0 for_all-batch own_frame-has.1

-- A client that has asked for 80 frames.
abbrev flowing_client : Net
flowing_client = record hosting {
  base =
      (
        258,
        record {
          enabled = true;
          selected = 0 ∷ [];
          available_persistent = [];
          available_last = 0;
          available_next = 0;
        },
      )
      ∷ [];
  host = false;
  peer = some 12;
  tally = replicate 5 80;
}

abbrev two_ends : List (StreamPacket × DataPacket)
two_ends = (on_channel end_frame 0, holding []) ∷ (on_channel end_frame 0, holding []) ∷ []

-- A packet and the end of its frame, which says that there are two, with a round after each.
abbrev at_once : Round
at_once = record { sync_frames = false; buffering = pos 0; now_u = pos 100000 }

abbrev pushed_packets : List Step
pushed_packets =
    pushes (on_channel end_frame 0) (holding [])
    ∷ releases at_once
    ∷ pushes (on_channel 0 0) (holding (1 ∷ []))
    ∷ releases at_once
    ∷ []

run-count_example :
    count_buffers (λ spkt dpkt. true) (run pushed_packets (new_queue (pos 7) (pos 50))).0
      + count_buffers
          (λ spkt dpkt. true)
          (pending (run pushed_packets (new_queue (pos 7) (pos 50))).1.packets)
    ≡ count_pushed (λ spkt dpkt. true) pushed_packets
      + count_buffers (λ spkt dpkt. true) (pending (new_queue (pos 7) (pos 50)).packets)
run-count_example = run-count (λ spkt dpkt. true) pushed_packets (new_queue (pos 7) (pos 50))

-- Both are released in the second round, in the order in which they came.
pushed_packets-run :
    count_buffers
      (λ spkt dpkt. spkt.channel == end_frame)
      (run pushed_packets (new_queue (pos 7) (pos 50))).0
    ≡ 1
unfolding new_queue push count_packet weight count_at put_count erase_count release release_each
    should_process_now has_all due pop_consumed next_due sooner ◌+ℤ◌ ◌-ℤ◌ ◌*ℤ◌
pushed_packets-run = refl

abbrev queue : PacketQueue
queue = (run pushed_packets (new_queue (pos 7) (pos 50))).1

release_complete_example :
    All
      (λ b.
        (b.spkt.channel == end_frame) || false ≡ true
        → came b.spkt.timestamp pushed_packets ≡ announced b.spkt.timestamp pushed_packets)
      (release at_once (run pushed_packets (new_queue (pos 7) (pos 50))).1 none).0
release_complete_example = release_complete pushed_packets (pos 7) (pos 50) at_once none
