-- ===== src/Tests/MuxerTests.antt =====
-- src/streams/muxer.cpp at concrete inputs.
use beyond_protocol.Prelude.{
  ℕ, ◌≡◌, inl, inr, refl, arith, true, false, List, [], ◌∷◌, none, some, lookup, put, contains,
}
use beyond_protocol.FrameId.{FrameId, frameset, source, make}
use beyond_protocol.Stream.{frames}
use beyond_protocol.Children.{one}
use beyond_protocol.Muxer.{
  StreamEntry, Muxer, empty, add, remove, map_from_input, find_from_input, find_or_create_local,
  map_to_output, target, deref, find_entry, erase_entry, input_key, frameset_key, allocate_dynamic,
  register, local_frameset,
}
use beyond_protocol.Muxer.Calls.{
  MuxerStream, on_packet, post, is_wildcard, selects, enable_one, enable_each, enable,
}
use beyond_protocol.Muxer.Entries.{WellFormed}
use beyond_protocol.Muxer.Reached.{Call, adds, removes, maps, step, steps, steps-WellFormed}
use beyond_protocol.Muxer.Mapping.{map_from_input-map_to_output}
use beyond_protocol.Muxer.Routing.{post-on_packet}
use beyond_protocol.Muxer.Enable.{Enabled, enable-Enabled}
use beyond_protocol.Tests.BroadcastTests.{recorder, packet, body}

-- Two streams, a frame of each, and the first stream removed.
abbrev calls : List Call
calls =
    adds 7 ∷ adds 8 ∷ maps 7 (record { id = 258 }) ∷ maps 8 (record { id = 258 }) ∷ removes 7 ∷ []

steps-WellFormed_example : WellFormed (steps empty calls)
steps-WellFormed_example =
    steps-WellFormed calls (tt, (tt, (omega arith, (omega arith, (tt, tt))))) (omega arith)

abbrev used : Muxer
used = steps empty calls

used-WellFormed : WellFormed used
used-WellFormed =
    steps-WellFormed calls (tt, (tt, (omega arith, (omega arith, (tt, tt))))) (omega arith)

-- Stream 8, which is left.
abbrev second : StreamEntry
second = record { stream = 8; id = 1; fixed_fs = none }

second-alive : deref 1 used.streams ≡ some second
unfolding steps step add remove find_or_create_local map_from_input find_entry erase_entry deref
    allocate_dynamic local_frameset register input_key frameset_key frameset source make lookup put
second-alive = refl

used-framesets : used.framesets ≡ 2
unfolding steps step add remove find_or_create_local map_from_input find_entry erase_entry
    allocate_dynamic local_frameset register input_key frameset_key frameset source make lookup put
used-framesets = refl

abbrev frame : FrameId
frame = record { id = 259 }

map_from_input-map_to_output_example :
    (map_to_output (map_from_input used second frame).0 (map_from_input used second frame).1
      ≡ some (frame, 1))
    × (find_from_input (map_from_input used second frame).0 second frame
        ≡ some (map_from_input used second frame).1)
    × ((l : FrameId) (p : FrameId × ℕ)
        → map_to_output used l ≡ some p
        → map_to_output (map_from_input used second frame).0 l ≡ some p)
map_from_input-map_to_output_example =
    map_from_input-map_to_output used used-WellFormed.inv second (omega arith) frame (omega arith)
      second-alive (omega (arith, used-framesets)) refl

post-on_packet_example :
    let (m', p) = on_packet used second packet body in
    post recorder m'
      (record packet { stream_id = p.first.stream_id; frame_number = p.first.frame_number })
      body
      []
    ≡ (8 ∷ 3 ∷ 4 ∷ [], true)
post-on_packet_example =
    post-on_packet recorder used used-WellFormed.inv second (omega arith) refl second-alive
      (omega (arith, used-framesets)) packet (omega arith, omega arith) body packet body []

-- A muxer with one mapping, from local frame 5 to frame 772 of stream 7, which has been seen.
abbrev mapped : MuxerStream
mapped = record {
  maps = record {
    fsmap = [];
    sourcecount = [];
    imap = [];
    omap = (5, (record { id = 772 }, 0)) ∷ [];
    streams = record { stream = 7; id = 0; fixed_fs = none } ∷ [];
    stream_ids = 1;
    framesets = 1;
  };
  base =
      (
        5,
        record {
          enabled = false;
          selected = [];
          available_persistent = [];
          available_last = 0;
          available_next = 0;
        },
      )
      ∷ [];
}

-- Every source of frameset 0.
abbrev wildcard : FrameId
wildcard = record { id = 255 }

enable-Enabled_example : Enabled (enable recorder mapped wildcard (one 2) []).0.0.base 5 (one 2)
unfolding enable enable_each enable_one is_wildcard selects target map_to_output deref frames
    frameset source contains lookup
enable-Enabled_example =
    enable-Enabled recorder (one 2) mapped wildcard [] 5 refl (inr (omega arith), inl (omega arith))
      (λ e. refl)
