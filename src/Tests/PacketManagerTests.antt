-- ===== src/Tests/PacketManagerTests.antt =====
-- src/streams/packetmanager.cpp at concrete inputs.
use beyond_protocol.Prelude.{ℕ, ◌+◌, ◌≡◌, refl, arith, List, [], ◌∷◌, ◌++◌, Option, none, some}
use beyond_protocol.Prelude.Int.{pos, ◌+ℤ◌, ◌-ℤ◌}
use beyond_protocol.Packet.{PacketPair}
use beyond_protocol.Channels.{end_frame}
use beyond_protocol.PacketManager.{
  StreamState, slot, max_buffer, min_timestamp, replay, next_frame, accept, keep, submit, new_state,
}
use beyond_protocol.PacketManager.Present.{run}
use beyond_protocol.PacketManager.Whole.{IsIdle, packets, run-frames}
use beyond_protocol.PacketManager.Kept.{first_lost}
use beyond_protocol.PacketManager.Late.{late_frame}

-- A packet of frame `t` on a channel, with a number of packets and a byte.
abbrev packet : ℕ → ℕ → ℕ → ℕ → PacketPair
packet t channel count byte = record {
  first = record {
    version = 5;
    timestamp = pos t;
    stream_id = 0;
    frame_number = 0;
    channel = channel;
    flags = 0;
  };
  second = record {
    codec = 0;
    frame_count = 1;
    bitrate = 0;
    packet_count = count;
    bytes = byte ∷ [];
  };
}

abbrev resting : StreamState
resting = new_state (packet 0 0 0 0)

resting-IsIdle : IsIdle resting
resting-IsIdle = record { absent = refl; unknown = refl; uncounted = refl; alone = refl }

-- The end of the first frame comes first; the second frame is its end alone.
abbrev two_frames : List (ℕ × List PacketPair)
two_frames =
    (7, packet 7 end_frame 2 1 ∷ packet 7 0 0 2 ∷ []) ∷ (5, packet 5 end_frame 1 3 ∷ []) ∷ []

run-frames_example : run 2 (packets two_frames) resting ≡ some (resting, packets two_frames)
run-frames_example =
    run-frames 0 two_frames resting resting-IsIdle
      (((refl, refl, (refl, refl, tt)), refl), (((refl, refl, tt), refl), tt))

-- Frame 7 has had its end, which announced two packets.
abbrev one_missing : StreamState
one_missing = record resting { timestamp = pos 7; expected = pos 2; processed = 1 }

abbrev next_frame_packets : List PacketPair
next_frame_packets = packet 9 0 0 4 ∷ packet 9 end_frame 2 5 ∷ []

late_frame_example :
    (s1 : StreamState) × (run 2 (next_frame_packets ++ packet 7 0 0 2 ∷ []) one_missing
      ≡ some (s1, packet 7 0 0 2 ∷ next_frame_packets))
    × IsIdle s1
    × (s1.buffered_ends ≡ pos 0)
late_frame_example =
    late_frame 0 7 9 next_frame_packets (packet 7 0 0 2) one_missing (omega arith) (omega arith)
      ((refl, refl, (refl, refl, tt)), refl) (omega arith) refl refl refl refl refl

-- 100 packets of frame 9 are kept.
abbrev full_buffer : StreamState
full_buffer = record one_missing { slots = λ j. packet 9 0 0 j; write_pos = 100 }

first_lost_example :
    (s1 : StreamState) × (submit 1 none (packet 9 1 0 200) full_buffer ≡ some (s1, []))
    × (slot 0 s1 ≡ packet 9 1 0 200)
    × (slot (0 + max_buffer) s1 ≡ packet 9 1 0 200)
    × (s1.read_pos ≡ 0)
    × (s1.write_pos ≡ 0 + max_buffer + 1)
first_lost_example =
    first_lost 0 7 9 0 (packet 9 1 0 200) full_buffer refl refl (omega arith) refl (omega arith)
      refl

abbrev outputs : Option (StreamState × List PacketPair) → List PacketPair
outputs none = []
outputs (some r) = r.1

-- A packet of frame 11 is kept on while frame 9 is passed on, and comes after its end.
three_frames :
    outputs (
      run 4
        (packet 11 end_frame 1 6 ∷ packet 9 0 0 4 ∷ packet 7 0 0 2 ∷ packet 9 end_frame 2 5 ∷ [])
        one_missing)
    ≡ packet 7 0 0 2 ∷ packet 9 0 0 4 ∷ packet 9 end_frame 2 5 ∷ packet 11 end_frame 1 6 ∷ []
unfolding submit accept keep next_frame replay min_timestamp ◌+ℤ◌ ◌-ℤ◌
three_frames = refl
