-- ===== src/Net/Buffer.antt =====
-- The receive buffer of src/streams/netstream.cpp: queuePacket_, what netstream_thread_ does in one round
-- with the queue of a frame, and the order in which process_buffered_packets_ takes what is released.
-- The adjustment of the buffering time, which is computed in floating point, and the waiting are left
-- out: the time of the round and the buffering time are arguments.
pub mod Pending
pub mod Complete
use beyond_protocol.Prelude.{
  ℕ, suc, ◌+◌, Bool, true, false, not, ◌&&◌, ◌||◌, ◌==◌, if◌then◌else◌, List, [], ◌∷◌, ◌++◌, Option,
  none, some, lookup, put,
}
use beyond_protocol.Prelude.Int.{ℤ, pos, pos_part, neg_part, ◌+ℤ◌, ◌-ℤ◌, ◌*ℤ◌, ltb_ℤ}
use beyond_protocol.Packet.{StreamPacket, DataPacket}
use beyond_protocol.Channels.{end_frame}
use beyond_protocol.Net.{frame_of}

-- Net::PacketBuffer
pub record PacketBuffer : Type 0 where
  pub spkt : StreamPacket
  pub dpkt : DataPacket
  pub ts_rel : ℤ
  pub packet_consumed : Bool

-- Net::PacketQueue. `incomplete` is incomplete_packet_count, by timestamp.
pub record PacketQueue : Type 0 where
  pub packets : List PacketBuffer
  pub base_spkt : ℤ
  pub base_local : ℤ
  pub incomplete : List (ℤ × ℤ)

-- packet_queue_
abbrev pub Queues : Type 0
Queues = List (ℕ × PacketQueue)

abbrev pub eq_ℤ : ℤ → ℤ → Bool
eq_ℤ a b = pos_part a + neg_part b == pos_part b + neg_part a

unfoldable pub count_at : ℤ → List (ℤ × ℤ) → Option ℤ
count_at ts [] = none
count_at ts ((t, c) ∷ m) = if eq_ℤ t ts then some c else count_at ts m

unfoldable pub put_count : ℤ → ℤ → List (ℤ × ℤ) → List (ℤ × ℤ)
put_count ts v [] = (ts, v) ∷ []
put_count ts v ((t, c) ∷ m) = if eq_ℤ t ts then (t, v) ∷ m else (t, c) ∷ put_count ts v m

unfoldable pub erase_count : ℤ → List (ℤ × ℤ) → List (ℤ × ℤ)
erase_count ts [] = []
erase_count ts ((t, c) ∷ m) =
    let rest = erase_count ts m in if eq_ℤ t ts then rest else (t, c) ∷ rest

abbrev pub or_zero : Option ℤ → ℤ
or_zero none = pos 0
or_zero (some c) = c

-- What a packet adds to the count of its timestamp.
unfoldable pub weight : StreamPacket → DataPacket → ℤ
weight spkt dpkt = if spkt.channel == end_frame then pos 1 -ℤ pos dpkt.packet_count else pos 1

-- The count of a timestamp at a packet, which is erased when it comes to zero.
unfoldable pub count_packet : StreamPacket → DataPacket → List (ℤ × ℤ) → List (ℤ × ℤ)
count_packet spkt dpkt m =
    let count = or_zero (count_at spkt.timestamp m) +ℤ weight spkt dpkt in
    if eq_ℤ count (pos 0) then erase_count spkt.timestamp m else put_count spkt.timestamp count m

-- The queue of a frame that was not seen before, at its first packet.
unfoldable pub new_queue : ℤ → ℤ → PacketQueue
new_queue base_spkt now = record {
  packets = [];
  base_spkt = base_spkt;
  base_local = now;
  incomplete = [];
}

unfoldable pub push : StreamPacket → DataPacket → PacketQueue → PacketQueue
push spkt dpkt q = record q {
  packets =
      q.packets
      ++ record {
        spkt = spkt;
        dpkt = dpkt;
        ts_rel = spkt.timestamp -ℤ q.base_spkt;
        packet_consumed = false;
      }
        ∷ [];
  incomplete = count_packet spkt dpkt q.incomplete;
}

-- The queue of a packet's frame.
unfoldable pub queue_of : ℤ → StreamPacket → Queues → PacketQueue
queue_of now spkt qs = elim (lookup (frame_of spkt) qs) [
  | none ↦ new_queue spkt.timestamp now
  | some q ↦ q
]

-- queuePacket_
unfoldable pub queue_packet : ℤ → StreamPacket → DataPacket → Queues → Queues
queue_packet now spkt dpkt qs = put (frame_of spkt) (push spkt dpkt (queue_of now spkt qs)) qs

-- A round of the thread: synchronize_on_recv_timestamps_, the buffering time in milliseconds and the
-- time in microseconds.
pub record Round : Type 0 where
  pub sync_frames : Bool
  pub buffering : ℤ
  pub now_u : ℤ

unfoldable pub has_all : PacketQueue → PacketBuffer → Bool
has_all q b = elim (count_at b.spkt.timestamp q.incomplete) [ none ↦ true | some c ↦ false ]

-- When a packet is due, in milliseconds.
unfoldable pub due : Round → PacketQueue → PacketBuffer → ℤ
due r q b = q.base_local +ℤ b.ts_rel +ℤ r.buffering

unfoldable pub should_process_now : Round → PacketQueue → PacketBuffer → Bool
should_process_now r q b =
    if r.sync_frames && not (has_all q b)
    then false
    else (if (b.spkt.channel == end_frame) && not (has_all q b)
        then false
        else ltb_ℤ (due r q b *ℤ pos 1000) r.now_u)

unfoldable pub sooner : ℤ → Option ℤ → ℤ
sooner t none = t
sooner t (some u) = if ltb_ℤ t u then t else u

-- next_frame_ts_local after a packet, none for its greatest value: a packet that stays makes it earlier.
unfoldable pub next_due : Round → PacketQueue → PacketBuffer → Option ℤ → Option ℤ
next_due r q b next =
    if b.packet_consumed || should_process_now r q b then next else some (sooner (due r q b) next)

-- The loop over the packets of a queue: those that are released, the packets after it, and the
-- earliest time at which a packet that stays is due.
unfoldable pub release_each :
    Round
    → PacketQueue
    → List PacketBuffer
    → Option ℤ
    → List PacketBuffer × (List PacketBuffer × Option ℤ)
release_each r q [] next = ([], ([], next))
release_each r q (b ∷ bs) next =
    let ready = should_process_now r q b in
    let (out, (bs', last)) = release_each r q bs (next_due r q b next) in
    if b.packet_consumed
    then (out, (b ∷ bs', last))
    else (if ready
        then (b ∷ out, (record b { packet_consumed = true } ∷ bs', last))
        else (out, (b ∷ bs', last)))

-- while (front().packet_consumed) pop_front();
unfoldable pub pop_consumed : List PacketBuffer → List PacketBuffer
pop_consumed [] = []
pop_consumed (b ∷ bs) = let rest = pop_consumed bs in if b.packet_consumed then rest else b ∷ bs

unfoldable pub release :
    Round → PacketQueue → Option ℤ → List PacketBuffer × (PacketQueue × Option ℤ)
release r q next =
    let (out, (bs, next')) = release_each r q q.packets next in
    (out, (record q { packets = pop_consumed bs }, next'))

-- The comparison of process_buffered_packets_.
unfoldable pub sorts_before : StreamPacket → StreamPacket → Bool
sorts_before a b =
    if eq_ℤ a.timestamp b.timestamp then b.channel == end_frame else ltb_ℤ a.timestamp b.timestamp
