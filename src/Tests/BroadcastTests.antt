-- ===== src/Tests/BroadcastTests.antt =====
-- src/streams/broadcaster.cpp and src/streams/muxer.cpp: concrete streams, which write down the calls
-- that they get, and the broadcaster over them.
use beyond_protocol.Prelude.{ℕ, false, not, ◌==◌, List, [], ◌∷◌, ◌++◌}
use beyond_protocol.Prelude.Int.{pos}
use beyond_protocol.FrameId.{FrameId}
use beyond_protocol.Packet.{StreamPacket, DataPacket}
use beyond_protocol.Children.{Children}
use beyond_protocol.Broadcast.{Broadcast}

-- The world is the list of the calls. Stream 9 answers false to everything.
abbrev pub recorder : Children
recorder = record {
  World = List ℕ;
  Value = ℕ;
  zero_value = 0;
  post = λ spkt pkt s w. (w ++ s ∷ spkt.stream_id ∷ spkt.frame_number ∷ [], not (s == 9));
  begin = λ s w. (w ++ s ∷ [], not (s == 9));
  end = λ s w. (w ++ s ∷ [], not (s == 9));
  active = λ s w. (w, not (s == 9));
  active_frame = λ id s w. (w ++ s ∷ [], not (s == 9));
  reset = λ s w. w ++ s ∷ [];
  enable = λ id sel s w. (w ++ s ∷ id.id ∷ [], not (s == 9));
  disable = λ id sel s w. w ++ s ∷ id.id ∷ [];
  frames = λ s w. record { id = 0 } ∷ record { id = 1 } ∷ [];
  set_property = λ opt v s w. w;
  get_property = λ opt s w. 0;
  supports_property = λ opt s w. false;
  stream_type = λ s w. 2;
  uri = λ s w. s;
}

abbrev pub packet : StreamPacket
packet = record {
  version = 5;
  timestamp = pos 100;
  stream_id = 3;
  frame_number = 4;
  channel = 0;
  flags = 0;
}

abbrev pub body : DataPacket
body = record { codec = 0; frame_count = 1; bitrate = 0; packet_count = 1; bytes = [] }

abbrev three : Broadcast
three = record { streams = 7 ∷ 9 ∷ 8 ∷ []; base = [] }

abbrev frame : FrameId
frame = record { id = 772 }
