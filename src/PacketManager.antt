-- ===== src/PacketManager.antt =====
-- src/streams/packetmanager.cpp: the packets of a later frame are kept until the frame before is complete. It is the
-- state of one frame identifier, and calls are taken one at a time.
pub mod Present
pub mod Whole
pub mod Kept
pub mod Late
use beyond_protocol.Prelude.{
  ℕ, zero, suc, ◌+◌, ◌-◌, ◌*◌, ◌%◌, ◌^◌, Bool, true, false, not, ◌&&◌, ◌==◌, ltb, if◌then◌else◌,
  List, [], ◌∷◌, ◌++◌, Option, none, some, ◌>>=◌, lookup, put,
}
use beyond_protocol.Prelude.Int.{ℤ, pos, negsuc, ◌+ℤ◌, ◌-ℤ◌, ltb_ℤ}
use beyond_protocol.Packet.{StreamPacket, DataPacket, PacketPair, frame_set_id, frame_number_of}
use beyond_protocol.FrameId.{make}
use beyond_protocol.Channels.{end_frame}

-- StreamState::kMaxBuffer
abbrev pub max_buffer : ℕ
max_buffer = 100

-- StreamState, with the buffer as a function of the place in it.
pub record StreamState : Type 0 where
  pub slots : ℕ → PacketPair
  pub timestamp : ℤ
  pub expected : ℤ
  pub processed : ℕ
  pub read_pos : ℕ
  pub write_pos : ℕ
  pub buffered_ends : ℤ

-- A state with the packets that were passed on to the callback.
abbrev pub Result : Type 0
Result = StreamState × List PacketPair

abbrev pub eq_ℤ : ℤ → ℤ → Bool
eq_ℤ (pos a) (pos b) = a == b
eq_ℤ (negsuc a) (negsuc b) = a == b
eq_ℤ _ _ = false

abbrev pub min_ℤ : ℤ → ℤ → ℤ
min_ℤ a b = if ltb_ℤ b a then b else a

abbrev pub ends_frame : PacketPair → Bool
ends_frame p = p.first.channel == end_frame

abbrev pub slot : ℕ → StreamState → PacketPair
slot i s = s.slots (i % max_buffer)

abbrev pub with_slot : ℕ → PacketPair → StreamState → StreamState
with_slot i p s = record s { slots = λ j. if j == i % max_buffer then p else s.slots j }

-- The data of the packet at a place is moved away.
abbrev pub empty_slot : ℕ → StreamState → StreamState
empty_slot i s =
    with_slot i (record (slot i s) { second = record ((slot i s).second) { bytes = [] } }) s

-- The least timestamp of `n` packets in the buffer, from the place `i` on.
unfoldable pub min_timestamp : ℕ → ℕ → StreamState → ℤ
min_timestamp zero i s = pos (2 ^ 63 - 1)
min_timestamp (suc n) i s = min_ℤ (min_timestamp n (i + 1) s) (slot i s).first.timestamp

-- A packet at a place of the buffer is about to be submitted again.
abbrev pub unbuffer : ℕ → StreamState → StreamState
unbuffer i s =
    if ends_frame (slot i s) then record s { buffered_ends = s.buffered_ends -ℤ pos 1 } else s

-- The loop over the buffer, with the call that submits the packet at a place.
unfoldable pub replay :
    (ℕ → StreamState → Option Result) → Bool → ℕ → ℕ → StreamState → Option Result
replay resubmit clears zero i s = some (s, [])
replay resubmit clears (suc n) i s = do
  (s1, out) ← resubmit i (unbuffer i s)
  (s2, more) ← replay resubmit clears n (i + 1) (if clears then empty_slot i s1 else s1)
  some (s2, out ++ more)

-- Goes on with the frame that has the least timestamp in the buffer.
unfoldable pub next_frame : (ℕ → StreamState → Option Result) → Bool → StreamState → Option Result
next_frame resubmit clears s =
    replay resubmit clears (s.write_pos - s.read_pos) s.read_pos (record s {
      processed = 0;
      expected = negsuc 0;
      read_pos = s.write_pos;
      timestamp = min_timestamp (s.write_pos - s.read_pos) s.read_pos s;
    })

-- The packet is counted for the present frame.
abbrev pub count_packet : PacketPair → StreamState → StreamState
count_packet p s = record s {
  expected = if ends_frame p then pos p.second.packet_count else s.expected;
  processed = s.processed + 1;
}

-- A packet of the present frame.
unfoldable pub accept : (ℕ → StreamState → Option Result) → PacketPair → StreamState → Option Result
accept resubmit p s =
    let s1 = count_packet p s in
    if eq_ℤ (pos s1.processed) s1.expected
    then (if ltb s1.read_pos s1.write_pos
        then (do (s2, out) ← next_frame resubmit false s1; some (s2, p ∷ out))
        else some (record s1 { processed = 0; expected = negsuc 0; timestamp = negsuc 0 }, p ∷ []))
    else some (s1, p ∷ [])

-- A packet that is moved into the buffer, away from its place there if it has one.
abbrev pub buffer_packet : Option ℕ → PacketPair → StreamState → StreamState
buffer_packet from p s =
    let s1 = record (with_slot s.write_pos p s) { write_pos = s.write_pos + 1 } in
    let s2 : StreamState = elim from [ none ↦ s1 | some i ↦ empty_slot i s1 ] in
    if ends_frame p then record s2 { buffered_ends = s2.buffered_ends +ℤ pos 1 } else s2

-- A packet of a later frame.
unfoldable pub keep :
    (ℕ → StreamState → Option Result) → Option ℕ → PacketPair → StreamState → Option Result
keep resubmit from p s =
    let s1 = buffer_packet from p s in
    if ltb_ℤ (pos 4) s1.buffered_ends then next_frame resubmit true s1 else some (s1, [])

-- submit, on fuel for the calls of itself; the packet is in the buffer at the place `from`, or is not.
unfoldable pub submit : ℕ → Option ℕ → PacketPair → StreamState → Option Result
submit zero from p s = none
submit (suc fuel) from p s =
    let resubmit : ℕ → StreamState → Option Result = λ i s. submit fuel (some i) (slot i s) s in
    let again = submit fuel from p (record s { timestamp = p.first.timestamp }) in
    if eq_ℤ s.timestamp p.first.timestamp
    then accept resubmit p s
    else (if ltb_ℤ p.first.timestamp s.timestamp
        then some (s, p ∷ [])
        else (if eq_ℤ s.timestamp (negsuc 0) then again else keep resubmit from p s))

-- state_, by the identifier of the frame.
abbrev pub PacketManager : Type 0
PacketManager = List (ℕ × StreamState)

-- The value of a new entry of state_. What is in its buffer is not read before it is written.
abbrev pub new_state : PacketPair → StreamState
new_state p = record {
  slots = λ j. p;
  timestamp = negsuc 0;
  expected = negsuc 0;
  processed = 0;
  read_pos = 0;
  write_pos = 0;
  buffered_ends = pos 0;
}

-- getState
unfoldable pub get_state : ℕ → PacketPair → PacketManager → StreamState
get_state id p m = elim (lookup id m) [ none ↦ new_state p | some s ↦ s ]

-- submit of a packet to the manager.
unfoldable pub submit_packet :
    ℕ → PacketPair → PacketManager → Option (PacketManager × List PacketPair)
submit_packet fuel p m =
    let id = (make (frame_set_id p.first) (frame_number_of p.first)).id in
    do (s, out) ← submit fuel none p (get_state id p m); some (put id s m, out)
