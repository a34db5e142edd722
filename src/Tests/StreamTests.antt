-- ===== src/Tests/StreamTests.antt =====
-- src/streams/streams.cpp, channelSet.cpp and frameid.hpp at concrete inputs.
use beyond_protocol.Prelude.{ℕ, ◌≡◌, List, [], ◌∷◌}
use beyond_protocol.Stream.{available_channel}
use beyond_protocol.Stream.Seen.{see_all, seen_of, available_after, available_channel-see_all}

-- Channel 2 of frame 0 in one whole frame, then channel 70, which is persistent.
abbrev events : List (ℕ × ℕ)
events = (0, 2) ∷ (1, 3) ∷ (0, 2048) ∷ (0, 70) ∷ []

available_channel-see_all_example :
    available_channel (see_all events) 0 2 ≡ available_after (seen_of 0 events) 2
available_channel-see_all_example = available_channel-see_all events 0 2
